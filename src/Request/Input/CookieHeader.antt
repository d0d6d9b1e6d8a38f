-- ===== src/Request/Input/CookieHeader.antt =====
-- `parse_cookie_header` against the text of a cookie header.
use bluewing_cpp_server.Prelude.{
  true, false, List, [], ◌∷◌, ◌++◌, ◌≡◌, ◌≢◌, ◌∙◌, arith, Bytes, All, append_assoc, append-nil,
}
use bluewing_cpp_server.Request.{Platform, Request, set_cookie_ex}
use bluewing_cpp_server.Request.Input.{
  seek_name, seek_separator, seek_end, cookie_step, cookie_finish, cookie_loop, parse_cookie_header,
}

-- A name that can be written: it begins with neither a blank nor nothing, and only its first
-- character can be '='.
abbrev pub IsCookieName : Bytes → Type 0
IsCookieName [] = ⊥
IsCookieName (c ∷ name) = (c ≢ b' ') × (c ≢ b'\t') × All (λ b. b ≢ b'=') name

abbrev pub IsCookiePair : Bytes × Bytes → Type 0
IsCookiePair (name, value) = IsCookieName name × All (λ b. b ≢ b';') value

-- "a=1; b=2"
unfoldable pub cookie_text : Bytes → Bytes → List (Bytes × Bytes) → Bytes
cookie_text name value [] = name ++ b'=' ∷ value
cookie_text name value ((name', value') ∷ rest) =
    name ++ b'=' ∷ (value ++ b';' ∷ b' ' ∷ cookie_text name' value' rest)

module _ (P : Platform) where
  -- Each pair is a cookie that did not come from a handler.
  unfoldable pub set_pairs : Request P → List (Bytes × Bytes) → Request P
  set_pairs ctx [] = ctx
  set_pairs ctx ((name, value) ∷ rest) = set_pairs (set_cookie_ex P ctx name value [] false) rest

  loop-separator :
      (ctx : Request P) (name more rest : Bytes)
      → All (λ b. b ≢ b'=') more
      → cookie_loop P ctx (seek_separator name) (more ++ b'=' ∷ rest)
        ≡ cookie_loop P ctx (seek_end (name ++ more) []) rest
  unfolding cookie_loop cookie_step
  loop-separator ctx name [] rest h = rw append-nil
  loop-separator ctx name (c ∷ more) rest (n, h) =
      ground
        (arith, loop-separator ctx (name ++ c ∷ []) more rest h, append_assoc name (c ∷ []) more)

  loop_name :
      (ctx : Request P) (name rest : Bytes)
      → IsCookieName name
      → cookie_loop P ctx seek_name (name ++ b'=' ∷ rest)
        ≡ cookie_loop P ctx (seek_end name []) rest
  unfolding cookie_loop cookie_step
  loop_name ctx [] rest h = elim h [ ]
  loop_name ctx (c ∷ name) rest (s, t, h) = ground (arith, loop-separator ctx (c ∷ []) name rest h)

  loop_value :
      (ctx : Request P) (name value more rest : Bytes)
      → All (λ b. b ≢ b';') more
      → cookie_loop P ctx (seek_end name value) (more ++ b';' ∷ b' ' ∷ rest)
        ≡ cookie_loop P (set_cookie_ex P ctx name (value ++ more) [] false) seek_name rest
  unfolding cookie_loop cookie_step
  loop_value ctx name value [] rest h = rw append-nil
  loop_value ctx name value (c ∷ more) rest (n, h) =
      ground
        (arith, loop_value ctx name (value ++ c ∷ []) more rest h, append_assoc value (c ∷ []) more)

  loop_last :
      (ctx : Request P) (name value more : Bytes)
      → All (λ b. b ≢ b';') more
      → cookie_loop P ctx (seek_end name value) more
        ≡ (set_cookie_ex P ctx name (value ++ more) [] false, true)
  unfolding cookie_loop cookie_step cookie_finish
  loop_last ctx name value [] h = rw append-nil
  loop_last ctx name value (c ∷ more) (n, h) =
      ground (arith, loop_last ctx name (value ++ c ∷ []) more h, append_assoc value (c ∷ []) more)

  loop-cookie_text :
      (ctx : Request P) (name value : Bytes) (rest : List (Bytes × Bytes))
      → IsCookiePair (name, value)
      → All IsCookiePair rest
      → cookie_loop P ctx seek_name (cookie_text name value rest)
        ≡ (set_pairs ctx ((name, value) ∷ rest), true)
  unfolding cookie_text set_pairs
  loop-cookie_text ctx name value [] (n, v) h =
      loop_name ctx name value n ∙ loop_last ctx name [] value v
  loop-cookie_text ctx name value ((name', value') ∷ rest) (n, v) (p, h) =
      loop_name ctx name _ n
      ∙ loop_value ctx name [] value _ v
      ∙ loop-cookie_text (set_cookie_ex P ctx name value [] false) name' value' rest p h

  -- A cookie header of pairs, parted by "; ", is accepted and sets these cookies in their order; a
  -- name is not empty, begins with no blank and has '=' in its first place at most, and a value has
  -- no ';'.
  pub parse_cookie_header-cookie_text :
      (ctx : Request P) (name value : Bytes) (rest : List (Bytes × Bytes))
      → IsCookiePair (name, value)
      → All IsCookiePair rest
      → parse_cookie_header P ctx (cookie_text name value rest)
        ≡ (set_pairs ctx ((name, value) ∷ rest), true)
  unfolding parse_cookie_header
  parse_cookie_header-cookie_text = loop-cookie_text
