-- ===== src/Request/Headers.antt =====
-- The headers and cookies of a request as maps.
use bluewing_cpp_server.Prelude.{
  Bool, true, false, Option, none, some, List, [], ◌∷◌, ◌++◌, ◌≡◌, ◌∙◌, refl, ap, arith, map,
  if◌then◌else◌, Bytes, bytes_eq, bytes_eq_refl, bytes_eq_sound, Bool-cases, Option-cases, inl, inr,
  codes,
}
use bluewing_cpp_server.CLib.{tolower, cstr, strcaseeq, IsCstr}
use bluewing_cpp_server.UtHash.{find-assign}
use bluewing_cpp_server.Request.{
  Platform, Request, Header, Cookie, find_header, replace_header, add_header, set_header, updated,
  set_cookie_ex, set_cookie_attr, set_cookie, get_cookie, cookie_value,
}

pub cstr-IsCstr : (s : Bytes) → IsCstr s → cstr s ≡ s
unfolding cstr
cstr-IsCstr [] h = refl
cstr-IsCstr (c ∷ s) (n, h) = ground (arith, cstr-IsCstr s h)

pub IsCstr-tolower : (s : Bytes) → IsCstr s → IsCstr (map tolower s)
unfolding tolower
IsCstr-tolower [] h = tt
IsCstr-tolower (c ∷ s) (n, h) = (ground arith, IsCstr-tolower s h)

tolower-tolower : (s : Bytes) → map tolower (map tolower s) ≡ map tolower s
unfolding tolower
tolower-tolower [] = refl
tolower-tolower (c ∷ s) = ground (arith, tolower-tolower s)

strcaseeq_sound : (a b : Bytes) → strcaseeq a b ≡ true → map tolower a ≡ map tolower b
unfolding strcaseeq
strcaseeq_sound a b h = bytes_eq_sound (map tolower a) (map tolower b) h

strcaseeq_of : (a b : Bytes) → map tolower a ≡ map tolower b → strcaseeq a b ≡ true
unfolding strcaseeq
strcaseeq_of a b e = rw e (bytes_eq_refl (map tolower b))

-- Names that agree with one name agree with the same others.
strcaseeq_cong : (n a b : Bytes) → strcaseeq n a ≡ true → strcaseeq a b ≡ strcaseeq n b
unfolding strcaseeq
strcaseeq_cong n a b h = rw (strcaseeq_sound n a h)

strcaseeq_right : (a b n : Bytes) → strcaseeq a b ≡ true → strcaseeq n b ≡ strcaseeq n a
unfolding strcaseeq
strcaseeq_right a b n h = rw (strcaseeq_sound a b h)

find_header-replace :
    (name value j : Bytes) (l : List Header) {h : Header}
    → find_header name l ≡ some h
    → find_header j (replace_header name value l)
      ≡ (if strcaseeq name j then some (record h { value = value }) else find_header j l)
unfolding find_header replace_header
find_header-replace name value j [] e = cc
find_header-replace name value j (g ∷ l) {h} e = elim (Bool-cases (strcaseeq (cstr g.name) name)) [
  | inl here ↦ ground (arith, here, strcaseeq_cong (cstr g.name) name j here)
  | inr later ↦ elim (Bool-cases (strcaseeq name j)) [
    | inl same ↦ ground (
      arith,
      later,
      same,
      strcaseeq_right name j (cstr g.name) same,
      find_header-replace name value j l {h = h},
    )
    | inr other ↦ ground (arith, later, other, find_header-replace name value j l {h = h})
  ]
]

find_header-concat :
    (name j : Bytes) (l : List Header) (h : Header)
    → find_header name l ≡ none
    → strcaseeq (cstr h.name) name ≡ true
    → find_header j (l ++ h ∷ []) ≡ (if strcaseeq name j then some h else find_header j l)
unfolding find_header
find_header-concat name j [] h e s = ground (arith, strcaseeq_cong (cstr h.name) name j s)
find_header-concat name j (g ∷ l) h e s = elim (Bool-cases (strcaseeq name j)) [
  | inl same ↦
      ground (arith, same, strcaseeq_right name j (cstr g.name) same, find_header-concat name j l h)
  | inr other ↦ ground (arith, other, find_header-concat name j l h)
]

-- What a look-up gives: the string of the value.
abbrev pub value_of : Option Header → Bytes
value_of none = []
value_of (some h) = cstr h.value

value_of-if :
    (b : Bool) (h : Header) (o : Option Header)
    → value_of (if b then some h else o) ≡ (if b then cstr h.value else value_of o)
value_of-if true h o = refl
value_of-if false h o = refl

lower_same : (name : Bytes) → IsCstr name → strcaseeq (cstr (map tolower name)) name ≡ true
lower_same name c =
    rw (cstr-IsCstr (map tolower name) (IsCstr-tolower name c))
      (strcaseeq_of (map tolower name) name (tolower-tolower name))

cookie_value-if :
    (b : Bool) (h : Cookie) (o : Option Cookie)
    → cookie_value (if b then some h else o) ≡ (if b then cstr h.value else cookie_value o)
cookie_value-if true h o = refl
cookie_value-if false h o = refl

value-updated :
    (o : Option Cookie) (name value attr : Bytes) (changed : Bool)
    → (updated o name value attr changed).value ≡ value
unfolding updated
value-updated none name value attr changed = refl
value-updated (some c) name value attr changed = refl

module _ (P : Platform) where
  -- After a header is set under a name without NULs, that name in any case of its letters finds the
  -- string of its value, and any other name finds what it found before.
  pub find_header-set_header :
      (ctx : Request P) (name value j : Bytes)
      → IsCstr name
      → value_of (find_header j (set_header P ctx name value).headers_out)
        ≡ (if strcaseeq name j then cstr value else value_of (find_header j ctx.headers_out))
  unfolding set_header add_header
  find_header-set_header ctx name value j c =
      elim (Option-cases (find_header name ctx.headers_out)) [
        | inl new ↦
            let added : Header = record { name = map tolower name; value = value } in
            rw (new, set_header)
              (ap value_of (find_header-concat name j ctx.headers_out added new (lower_same name c))
                ∙ value_of-if (strcaseeq name j) added (find_header j ctx.headers_out))
        | inr (h, old) ↦
            rw (old, set_header)
              (ap value_of (find_header-replace name value j ctx.headers_out old)
                ∙ value_of-if (strcaseeq name j) (record h { value = value })
                    (find_header j ctx.headers_out))
      ]

  pub find-set_cookie_ex :
      (ctx : Request P) (name value attr : Bytes) (changed : Bool) (j : Bytes)
      → P.cookies.find (set_cookie_ex P ctx name value attr changed).cookies j ≡ (
          if bytes_eq name j
          then some (updated (P.cookies.find ctx.cookies name) name value attr changed)
          else P.cookies.find ctx.cookies j)
  unfolding set_cookie_ex
  find-set_cookie_ex ctx name value attr changed j =
      find-assign P.cookies ctx.cookies name j _ (P.cookies.find ctx.cookies name) refl

  -- A cookie that a handler sets reads as the string of its value afterwards, and every other
  -- cookie as before.
  pub get_cookie-set_cookie :
      (ctx : Request P) (name value j : Bytes)
      → get_cookie P (set_cookie P ctx name value) j
        ≡ (if bytes_eq name j then cstr value else get_cookie P ctx j)
  unfolding get_cookie set_cookie set_cookie_attr
  get_cookie-set_cookie ctx name value j =
      let attr = if ctx.secure then codes "Secure; HttpOnly" else codes "HttpOnly" in
      ap cookie_value (find-set_cookie_ex ctx name value attr true j)
      ∙ cookie_value-if (bytes_eq name j) _ (P.cookies.find ctx.cookies j)
      ∙ rw (value-updated (P.cookies.find ctx.cookies name) name value attr true)
