-- ===== src/Request/Form/Text.antt =====
-- URL-encoded text, and where its items end.
use bluewing_cpp_server.Prelude.{
  ℕ, suc, ◌⊎◌, inl, inr, ◌/◌, ◌%◌, Bool-cases, ◌+◌, ◌-◌, ◌≤◌, ◌<◌, Bool, true, false, Option, none,
  some, List, [], ◌∷◌, ◌++◌, ◌≡◌, ◌≢◌, refl, ap, arith, ◌>>=◌, Bytes, All, length, take, drop,
  length-take, take-append_add, take-append,
}
use Prim.Native.Nat.add
use bluewing_cpp_server.CLib.Hex.{hex_char}
use bluewing_cpp_server.Util.{find_char}
use bluewing_cpp_server.Util.Decode.{percent_encode}
use bluewing_cpp_server.CLib.{cstr, IsCstr}
use bluewing_cpp_server.Request.Form.{split_at}

pub find_char_hit :
    (c : ℕ) (xs ys : Bytes) → All (λ b. b ≢ c) xs → find_char (xs ++ c ∷ ys) c ≡ (true, c ∷ ys)
unfolding find_char
find_char_hit c [] ys h = ground arith
find_char_hit c (x ∷ xs) ys (n, h) = ground (arith, find_char_hit c xs ys h)

pub find_char_miss : (c : ℕ) (xs : Bytes) → All (λ b. b ≢ c) xs → find_char xs c ≡ (false, [])
unfolding find_char
find_char_miss c [] h = refl
find_char_miss c (x ∷ xs) (n, h) = ground (arith, find_char_miss c xs h)

-- What may stand unescaped in an item: no character with a meaning there.
abbrev pub KeepsItems : (ℕ → Bool) → Type 0
KeepsItems keep =
    (c : ℕ) → keep c ≡ true → (c ≢ b'%') × (c ≢ b'+') × (c ≢ b'=') × (c ≢ b'&') × (c ≢ 0)

pub split_at_hit :
    (c : ℕ) (xs ys : Bytes) (left k : ℕ)
    → All (λ b. b ≢ c) xs
    → left ≡ length xs + suc k
    → k ≤ length ys
    → split_at c (xs ++ c ∷ ys) left ≡ (true, length xs)
unfolding split_at
split_at_hit c xs ys left k h l m =
    let cut : take left (xs ++ c ∷ ys) ≡ xs ++ c ∷ take k ys =
      rw l (take-append_add xs (c ∷ ys) (suc k)) in
    let before : length xs + suc k - suc (length (take k ys)) ≡ length xs =
      omega (arith, length-take k ys) in
    rw (cut, find_char_hit c xs (take k ys) h, l, before)

pub split_at_miss :
    (c : ℕ) (xs ys : Bytes)
    → All (λ b. b ≢ c) xs
    → split_at c (xs ++ ys) (length xs) ≡ (false, length xs)
unfolding split_at
split_at_miss c xs ys h =
    rw (take-append xs ys, find_char_miss c xs h) (ap (λ k. (false, k)) (omega arith))

pub drop_past : (xs : Bytes) (c : ℕ) (ys : Bytes) → drop (length xs + 1) (xs ++ c ∷ ys) ≡ ys
drop_past [] c ys = refl
drop_past (x ∷ xs) c ys = simp add.suc (drop_past xs c ys)

pub hex_char-ne : (e d : ℕ) → (d ≡ b'=') ⊎ (d ≡ b'&') ⊎ (d ≡ 0) → hex_char e ≢ d
unfolding hex_char
hex_char-ne e d h = ground arith

pub percent_encode-without :
    (keep : ℕ → Bool) (d : ℕ) (s : Bytes)
    → ((c : ℕ) → keep c ≡ true → c ≢ d)
    → (d ≡ b'=') ⊎ (d ≡ b'&') ⊎ (d ≡ 0)
    → All (λ b. b ≢ d) (percent_encode keep s)
unfolding percent_encode
percent_encode-without keep d [] k m = tt
percent_encode-without keep d (c ∷ s) k m = elim (Bool-cases (keep c)) [
  | inl kept ↦ rw kept (k c kept, percent_encode-without keep d s k m)
  | inr coded ↦ rw coded (
    ground arith,
    (hex_char-ne (c / 16) d m, (hex_char-ne (c % 16) d m, percent_encode-without keep d s k m)),
  )
]

pub bind_all-some :
    {A : Type 0} (o : Option A) (f : A → Option A) → ((a : A) → f a ≡ some a) → (o >>= f) ≡ o
bind_all-some none f h = refl
bind_all-some (some a) f h = h a

-- URL-encoded text of one item and more: "a=1&b=2".
unfoldable pub form_text : (ℕ → Bool) → Bytes → Bytes → List (Bytes × Bytes) → Bytes
form_text keep name value [] = percent_encode keep name ++ b'=' ∷ percent_encode keep value
form_text keep name value ((name', value') ∷ rest) =
    percent_encode keep name
    ++ b'=' ∷ (percent_encode keep value ++ b'&' ∷ form_text keep name' value' rest)

pub All-append : (P : ℕ → Type 0) (xs ys : Bytes) → All P xs → All P ys → All P (xs ++ ys)
All-append P [] ys h k = k
All-append P (x ∷ xs) ys (p, h) k = (p, All-append P xs ys h k)

pub cstr-append : (s t : Bytes) → IsCstr s → cstr (s ++ 0 ∷ t) ≡ s
unfolding cstr
cstr-append [] t h = refl
cstr-append (c ∷ s) t (n, h) = ground (arith, cstr-append s t h)

-- A name and a value, as bytes.
abbrev pub IsPair : Bytes × Bytes → Type 0
IsPair (name, value) = All (λ c. c < 256) name × All (λ c. c < 256) value
