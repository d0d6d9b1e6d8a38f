-- ===== src/Sessions/Laws.antt =====
-- What a client's session remembers.
use bluewing_cpp_server.Prelude.{
  ◌<◌, true, false, Option, none, some, [], ◌∷◌, ◌≡◌, ◌∙◌, refl, arith, inl, inr, Bool-cases,
  Option-cases, ◌==◌, if◌then◌else◌, Bytes, bytes_eq, bytes_eq_refl, length,
}
use bluewing_cpp_server.CLib.{cstr, IsCstr}
use bluewing_cpp_server.NvHash
use bluewing_cpp_server.NvHash.Laws.{get-set}
use bluewing_cpp_server.Request.{Platform, get_cookie}
use bluewing_cpp_server.Request.Headers.{cstr-IsCstr, get_cookie-set_cookie}
use bluewing_cpp_server.UtHash.{UtHash, find-assign, assign, lookup}
use bluewing_cpp_server.Sessions.{
  Session, State, session_cookie, session_id_of, find_session, open_session, put_value,
  session_write, value_in, session_read,
}

session_id_of-IsCstr : (random : Bytes) → IsCstr (session_id_of random)
unfolding session_id_of
session_id_of-IsCstr [] = tt
session_id_of-IsCstr (b ∷ random) = (ground arith, (ground arith, session_id_of-IsCstr random))

id-nonempty : (random : Bytes) → 0 < length random → (length (session_id_of random) == 0) ≡ false
unfolding session_id_of
id-nonempty [] h = absurd (omega arith)
id-nonempty (b ∷ random) h = ground arith

module _ (P : Platform) (S : UtHash (Session P)) where
  find-store :
      (t : S.Table) (k j : Bytes) (v old : Session P)
      → S.find t k ≡ some old
      → S.find (S.store t k v) j ≡ (if bytes_eq k j then some v else S.find t j)
  find-store t k j v old e = unfold assign in find-assign S t k j v (some old) e

  find-add :
      (t : S.Table) (k j : Bytes) (v : Session P)
      → S.find t k ≡ none
      → S.find (S.add_keyptr t k v) j ≡ (if bytes_eq k j then some v else S.find t j)
  find-add t k j v e = unfold assign in find-assign S t k j v none e

  -- A value that is put into the session of the request's cookie is read from it.
  read-put_value :
      (s : State P S) (cookie : Bytes) (session : Session P) (key value j : Bytes)
      → get_cookie P s.request session_cookie ≡ cookie
      → find_session P S s.sessions cookie ≡ some session
      → session_read P S (put_value P S s cookie session key value) j ≡ (
          if bytes_eq (cstr key) (cstr j)
          then cstr value
          else NvHash.get P.names session.values j [])
  unfolding session_read put_value find_session
  read-put_value s cookie session key value j c e = elim (Bool-cases (length cookie == 0)) [
    | inl empty ↦ let missing : none ≡ some session = rw empty at e in cc
    | inr full ↦
        rw
          (
            c,
            full,
            find-store s.sessions cookie cookie _ session (rw full at e),
            bytes_eq_refl cookie,
          )
          (get-set P.names session.values key value true j [])
  ]

  get-empty : (j : Bytes) → NvHash.get P.names P.names.empty j [] ≡ []
  unfolding NvHash.get lookup
  get-empty j = rw (P.names.find-items, P.names.items-empty)

  -- The cookie and the session that a first write makes.
  cookie-open_session :
      (s : State P S) (random : Bytes)
      → get_cookie P (open_session P S s random).request session_cookie ≡ session_id_of random
  unfolding open_session
  cookie-open_session s random =
      get_cookie-set_cookie P s.request session_cookie (session_id_of random) session_cookie
      ∙ rw (bytes_eq_refl session_cookie)
          (cstr-IsCstr (session_id_of random) (session_id_of-IsCstr random))

  find-open_session :
      (s : State P S) (random : Bytes)
      → 0 < length random
      → S.find s.sessions (session_id_of random) ≡ none
      → find_session P S (open_session P S s random).sessions (session_id_of random)
        ≡ some (record { id = session_id_of random; values = P.names.empty })
  unfolding open_session find_session
  find-open_session s random n new = rw (
    id-nonempty random n,
    find-add s.sessions (session_id_of random) (session_id_of random) _ new,
    bytes_eq_refl (session_id_of random),
  )

  -- What is read goes by the session alone.
  session_read-found :
      (s : State P S) (j : Bytes) (o : Option (Session P))
      → find_session P S s.sessions (get_cookie P s.request session_cookie) ≡ o
      → session_read P S s j ≡ value_in P S o j
  unfolding session_read
  session_read-found s j o e = rw e

  -- A value that is written to the session of a request reads as its string at its name, and other
  -- names read as before, also where the write opens the session, if the random bytes are not empty
  -- and make no identifier that another session has.
  pub session_read-session_write :
      (s : State P S) (random key value j : Bytes)
      → 0 < length random
      → S.find s.sessions (session_id_of random) ≡ none
      → session_read P S (session_write P S s random key value) j
        ≡ (if bytes_eq (cstr key) (cstr j) then cstr value else session_read P S s j)
  unfolding session_write
  session_read-session_write s random key value j n new =
      elim (Option-cases (find_session P S s.sessions (get_cookie P s.request session_cookie))) [
        | inl missing ↦
            let id = session_id_of random in
            let opened = open_session P S s random in
            rw (missing, session_write)
              (read-put_value opened id (record { id = id; values = P.names.empty }) key value j
                  (cookie-open_session s random) (find-open_session s random n new)
                ∙ rw (get-empty j, session_read-found s j none missing))
        | inr (session, found) ↦
            rw (found, session_write)
              (read-put_value s (get_cookie P s.request session_cookie) session key value j refl
                  found
                ∙ rw (session_read-found s j (some session) found))
      ]
