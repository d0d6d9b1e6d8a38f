-- ===== src/Sessions.antt =====
-- Lacewing/src/webserver/sessions.c: values kept for a client between its requests, under the
-- identifier in its cookie.
pub mod Laws
use bluewing_cpp_server.Prelude.{
  ℕ, ◌+◌, ◌/◌, ◌%◌, true, Option, none, some, List, [], ◌∷◌, ltb, ◌==◌, if◌then◌else◌, Bytes, codes,
  length,
}
use bluewing_cpp_server.CLib.{cstr}
use bluewing_cpp_server.NvHash
use bluewing_cpp_server.Request.{Platform, Request, get_cookie, set_cookie}
use bluewing_cpp_server.UtHash.{UtHash}

abbrev pub session_cookie : Bytes
session_cookie = codes "lw_session"

-- hex [d]
abbrev pub hex : ℕ → ℕ
hex d = if ltb d 10 then d + b'0' else d + 87

-- The identifier of a session: the digits of each random byte, the lower one first.
unfoldable pub session_id_of : Bytes → Bytes
session_id_of [] = []
session_id_of (b ∷ random) = hex (b % 16) ∷ hex (b / 16) ∷ session_id_of random

-- `struct _lw_ws_session`
pub record Session (P : Platform) : Type 0 where
  pub id : Bytes
  pub values : P.names.Table

module _ (P : Platform) (S : UtHash (Session P)) where
  -- The request and the table of sessions of its webserver.
  pub record State : Type 0 where
    pub request : Request P
    pub sessions : S.Table

  -- The session of a cookie; an empty cookie has none.
  unfoldable pub find_session : S.Table → Bytes → Option (Session P)
  find_session sessions cookie = if length cookie == 0 then none else S.find sessions cookie

  -- A new session, and its cookie; `random` is what `lw_random` gives.
  unfoldable pub open_session : State → Bytes → State
  open_session s random =
      let id = session_id_of random in
      record {
        request = set_cookie P s.request session_cookie id;
        sessions = S.add_keyptr s.sessions id (record { id = id; values = P.names.empty });
      }

  put_value : State → Bytes → Session P → Bytes → Bytes → State
  put_value s cookie session key value = record s {
    sessions =
        S.store s.sessions cookie
          (record session { values = NvHash.set P.names session.values key value true });
  }

  -- lw_ws_req_session_write
  unfoldable pub session_write : State → Bytes → Bytes → Bytes → State
  unfolding put_value
  session_write s random key value =
      let cookie = get_cookie P s.request session_cookie in
      elim (find_session s.sessions cookie) [
        | some session ↦ put_value s cookie session key value
        | none ↦
            let id = session_id_of random in
            put_value (open_session s random) id (record { id = id; values = P.names.empty }) key
              value
      ]

  abbrev pub value_in : Option (Session P) → Bytes → Bytes
  value_in none key = []
  value_in (some session) key = NvHash.get P.names session.values key []

  -- lw_ws_req_session_read
  unfoldable pub session_read : State → Bytes → Bytes
  session_read s key =
      value_in (find_session s.sessions (get_cookie P s.request session_cookie)) key

  -- lw_ws_session_close
  unfoldable pub session_close : S.Table → Bytes → S.Table
  session_close sessions id = elim (S.find sessions id) [
    | none ↦ sessions
    | some session ↦ S.del sessions id
  ]

  -- lw_ws_req_session_close
  unfoldable pub req_session_close : State → State
  req_session_close s = record s {
    sessions = session_close s.sessions (get_cookie P s.request session_cookie);
  }

  -- lw_ws_req_session_first, and the rest of its chain
  unfoldable pub session_items : State → List (Bytes × Bytes)
  session_items s = elim (find_session s.sessions (get_cookie P s.request session_cookie)) [
    | none ↦ []
    | some session ↦ P.names.items session.values
  ]

-- lw_ws_sessionitem_name
unfoldable pub sessionitem_name : Bytes × Bytes → Bytes
sessionitem_name (key, value) = cstr key

-- lw_ws_sessionitem_value gives the key too.
unfoldable pub sessionitem_value : Bytes × Bytes → Bytes
sessionitem_value (key, value) = cstr key
