-- ===== src/Request/Input/Url.antt =====
-- `lwp_ws_req_in_url`: what it refuses, and the path that it stores; `lwp_ws_req_in_version`.
use bluewing_cpp_server.Prelude.{
  ℕ, suc, ◌-◌, ◌<◌, Bool, true, false, none, some, [], ◌∷◌, ◌++◌, ◌≡◌, ◌⊎◌, ◌↔◌, inl, inr, refl,
  arith, ◌==◌, Bytes, All, codes, length, take, Bool-cases, bytes_eq, take-append, length-append,
  ltb,
}
use bluewing_cpp_server.Util.Decode.{percent_encode, KeepsLiterals, urldecode-percent_encode}
use bluewing_cpp_server.Request.{Platform, Request}
use bluewing_cpp_server.Request.Input.{
  has_dot_dot, in_path, in_host, in_query, in_url, in_version, url_size,
}

dot_dot-found : (pre post : Bytes) → has_dot_dot (pre ++ b'.' ∷ b'.' ∷ post) ≡ some true
unfolding has_dot_dot
dot_dot-found [] post = refl
dot_dot-found (c ∷ []) post = ground (arith, dot_dot-found [] post)
dot_dot-found (c ∷ d ∷ pre) post = ground (arith, dot_dot-found (d ∷ pre) post)

module _ (P : Platform) where
  -- A URL whose text has two dots in a row is refused, and leaves the request as it was.
  pub in_url-dot_dot :
      (ctx : Request P) (n : ℕ) (url pre post : Bytes)
      → take n url ≡ pre ++ b'.' ∷ b'.' ∷ post
      → in_url P ctx n url ≡ some (ctx, false)
  unfolding in_url
  in_url-dot_dot ctx n url pre post e = rw (e, dot_dot-found pre post)

  -- A URL that the URL parser finds to be only a path, of a '/' and percent-encoded bytes that are
  -- less than 4096, is accepted and its bytes stored as the path, if its text as it was sent has no
  -- two dots in a row: two escaped dots in a row are stored.
  pub in_url_path :
      (ctx : Request P) (keep : ℕ → Bool) (s rest : Bytes)
      → KeepsLiterals keep
      → All (λ c. c < 256) s
      → length s < url_size
      → has_dot_dot (b'/' ∷ percent_encode keep s) ≡ some false
      → P.parse_url (b'/' ∷ percent_encode keep s)
        ≡ some (record {
          path = some (record { off = 0; len = suc (length (percent_encode keep s)) });
          host = none;
          port = none;
          query = none;
        })
      → in_url P ctx (suc (length (percent_encode keep s))) (b'/' ∷ (percent_encode keep s ++ rest))
        ≡ some (record ctx { url = s }, true)
  unfolding in_url in_path in_host in_query
  in_url_path ctx keep s rest literal bytes fits dots parsed =
      let path = percent_encode keep s in
      let room : ltb url_size (length (s ++ 0 ∷ [])) ≡ false =
        ground (arith, length-append s (0 ∷ []), fits) in
      let unslashed : suc (length path) - 1 ≡ length path = omega arith in
      rw (take-append path rest, dots, parsed, unslashed)
        (rw (urldecode-percent_encode keep false s rest url_size literal bytes (omega arith))
          (rw room refl))

split8 :
    (v : Bytes) → length v ≡ 8 → (a b c d e f g h : ℕ) × (v ≡ a ∷ b ∷ c ∷ d ∷ e ∷ f ∷ g ∷ h ∷ [])
split8 [] l = absurd (omega arith)
split8 (a ∷ []) l = absurd (omega arith)
split8 (a ∷ b ∷ []) l = absurd (omega arith)
split8 (a ∷ b ∷ c ∷ []) l = absurd (omega arith)
split8 (a ∷ b ∷ c ∷ d ∷ []) l = absurd (omega arith)
split8 (a ∷ b ∷ c ∷ d ∷ e ∷ []) l = absurd (omega arith)
split8 (a ∷ b ∷ c ∷ d ∷ e ∷ f ∷ []) l = absurd (omega arith)
split8 (a ∷ b ∷ c ∷ d ∷ e ∷ f ∷ g ∷ []) l = absurd (omega arith)
split8 (a ∷ b ∷ c ∷ d ∷ e ∷ f ∷ g ∷ h ∷ []) l = (a, b, c, d, e, f, g, h, refl)
split8 (a ∷ b ∷ c ∷ d ∷ e ∷ f ∷ g ∷ h ∷ i ∷ v) l = absurd (omega arith)

accepts8 :
    (P : Platform) (ctx : Request P) (a b c d e f g h : ℕ)
    → f < 256
    → h < 256
    → (in_version P ctx (a ∷ b ∷ c ∷ d ∷ e ∷ f ∷ g ∷ h ∷ [])).1 ≡ true
    → (a ≡ b'H')
      × (b ≡ b'T')
      × (c ≡ b'T')
      × (d ≡ b'P')
      × (e ≡ b'/')
      × (f ≡ b'1')
      × (g ≡ b'.')
      × ((h ≡ b'0') ⊎ (h ≡ b'1'))
unfolding in_version bytes_eq
accepts8 P ctx a b c d e f g h p q r = ground arith

in_version_length :
    (P : Platform) (ctx : Request P) (version : Bytes)
    → (in_version P ctx version).1 ≡ true
    → length version ≡ 8
unfolding in_version
in_version_length P ctx version h = elim (Bool-cases (length version == 8)) [
  | inl e ↦ ground arith
  | inr e ↦ absurd (ground arith)
]

accepts_of :
    (P : Platform) (ctx : Request P) (version : Bytes) (a b c d e f g h : ℕ)
    → version ≡ a ∷ b ∷ c ∷ d ∷ e ∷ f ∷ g ∷ h ∷ []
    → All (λ x. x < 256) version
    → (in_version P ctx version).1 ≡ true
    → (version ≡ codes "HTTP/1.0") ⊎ (version ≡ codes "HTTP/1.1")
accepts_of P ctx version a b c d e f g h shape bytes t =
    let small = rw shape at bytes in
    let parts =
      accepts8 P ctx a b c d e f g h small.1.1.1.1.1.0 small.1.1.1.1.1.1.1.0 (rw shape at t) in
    ground arith

in_version_accepts :
    (P : Platform) (ctx : Request P) (version : Bytes)
    → All (λ c. c < 256) version
    → (in_version P ctx version).1 ≡ true
    → (version ≡ codes "HTTP/1.0") ⊎ (version ≡ codes "HTTP/1.1")
in_version_accepts P ctx version bytes t =
    let (a, b, c, d, e, f, g, h, shape) = split8 version (in_version_length P ctx version t) in
    accepts_of P ctx version a b c d e f g h shape bytes t

-- Of the versions, exactly "HTTP/1.0" and "HTTP/1.1" are accepted.
pub in_version_iff :
    (P : Platform) (ctx : Request P) (version : Bytes)
    → All (λ c. c < 256) version
    → ((in_version P ctx version).1 ≡ true)
      ↔ ((version ≡ codes "HTTP/1.0") ⊎ (version ≡ codes "HTTP/1.1"))
in_version_iff P ctx version bytes = (
  in_version_accepts P ctx version bytes,
  λ v. elim v [
    | inl e ↦ rw e (unfold in_version bytes_eq in refl)
    | inr e ↦ rw e (unfold in_version bytes_eq in refl)
  ],
)
