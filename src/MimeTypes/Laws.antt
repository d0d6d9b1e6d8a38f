-- ===== src/MimeTypes/Laws.antt =====
-- The table has each extension once, so that the order of the search does not matter.
use bluewing_cpp_server.Prelude.{
  ℕ, zero, suc, Bool, true, false, not, ◌&&◌, none, some, List, [], ◌∷◌, ◌++◌, ◌≡◌, ◌≢◌, refl,
  arith, Bytes, bytes_eq, bytes_eq_sound, bytes_eq_refl, get_elem?, map, All, Bool-cases, inl, inr,
}
use bluewing_cpp_server.CLib.{tolower, strcaseeq}
use bluewing_cpp_server.MimeTypes.{mimetypes, after_last, find_type, guess_mimetype}

-- No entry has this extension.
unlisted : Bytes → List (Bytes × Bytes) → Bool
unlisted e [] = true
unlisted e ((name, type) ∷ rest) = not (strcaseeq name e) && unlisted e rest

each_once : List (Bytes × Bytes) → Bool
each_once [] = true
each_once ((name, type) ∷ rest) = unlisted name rest && each_once rest

mimetypes-each_once : each_once mimetypes ≡ true
unfolding each_once unlisted mimetypes strcaseeq bytes_eq tolower
mimetypes-each_once = refl

unlisted-get_elem? :
    (l : List (Bytes × Bytes)) (i : ℕ) (e : Bytes) {name type : Bytes}
    → unlisted e l ≡ true
    → get_elem? l i ≡ some (name, type)
    → strcaseeq name e ≡ false
unfolding unlisted
unlisted-get_elem? [] i e u h = cc
unlisted-get_elem? ((n, t) ∷ l) zero e u h = ground arith
unlisted-get_elem? ((n, t) ∷ l) (suc i) e u h = unlisted-get_elem? l i e (ground arith) h

strcaseeq-join :
    (a b c : Bytes) → strcaseeq a c ≡ true → strcaseeq b c ≡ true → strcaseeq a b ≡ true
unfolding strcaseeq
strcaseeq-join a b c p q =
    rw
      (
        bytes_eq_sound (map tolower a) (map tolower c) p,
        bytes_eq_sound (map tolower b) (map tolower c) q,
      )
      (bytes_eq_refl (map tolower c))

find_type-listed :
    (l : List (Bytes × Bytes)) (i : ℕ) (extension : Bytes) {name type : Bytes}
    → each_once l ≡ true
    → get_elem? l i ≡ some (name, type)
    → strcaseeq name extension ≡ true
    → find_type l extension ≡ type
unfolding find_type each_once
find_type-listed [] i e o h s = cc
find_type-listed ((n, t) ∷ l) zero e o h s = ground arith
find_type-listed ((n, t) ∷ l) (suc i) e {name} o h s = elim (Bool-cases (strcaseeq n e)) [
  | inl same ↦
      let twice = strcaseeq-join name n e s same in
      let alone = unlisted-get_elem? l i n (ground arith) h in cc
  | inr other ↦ rw other (find_type-listed l i e (ground arith) h s)
]

after_last-none : (c : ℕ) (s : Bytes) → All (λ b. b ≢ c) s → after_last c s ≡ none
unfolding after_last
after_last-none c [] h = refl
after_last-none c (b ∷ s) (n, h) = ground (arith, after_last-none c s h)

after_last-append :
    (c : ℕ) (base s : Bytes) → All (λ b. b ≢ c) s → after_last c (base ++ c ∷ s) ≡ some s
unfolding after_last
after_last-append c [] s h = ground (arith, after_last-none c s h)
after_last-append c (b ∷ base) s h = ground (arith, after_last-append c base s h)

-- A file name that ends in a dot and an extension of the table, in any case of its letters, gets
-- the type that the table has at that entry.
pub guess_mimetype-listed :
    (base extension : Bytes) (i : ℕ) {name type : Bytes}
    → get_elem? mimetypes i ≡ some (name, type)
    → strcaseeq name extension ≡ true
    → All (λ b. b ≢ b'.') extension
    → guess_mimetype (base ++ b'.' ∷ extension) ≡ type
unfolding guess_mimetype
guess_mimetype-listed [] extension i h s d =
    rw (after_last-append b'.' [] extension d)
      (find_type-listed mimetypes i extension mimetypes-each_once h s)
guess_mimetype-listed (b ∷ base) extension i h s d =
    rw (after_last-append b'.' (b ∷ base) extension d)
      (find_type-listed mimetypes i extension mimetypes-each_once h s)
