-- ===== src/CLib/Hex.antt =====
-- Two hexadecimal digits and the byte that they write.
use bluewing_cpp_server.Prelude.{
  ℕ, zero, suc, ◌+◌, ◌/◌, ◌%◌, ◌<◌, Bool, true, false, [], ◌∷◌, ◌≡◌, refl, subst, arith, ltb, ◌==◌,
  if◌then◌else◌, ==_iff,
}
use bluewing_cpp_server.CLib.{strtol16_char}

-- The test holds of the `left` numbers from `k` on.
holds_from : ℕ → ℕ → (ℕ → Bool) → Bool
holds_from zero k test = true
holds_from (suc left) k test = if test k then holds_from left (k + 1) test else false

holds_from-each :
    (test : ℕ → Bool) (left k i : ℕ)
    → holds_from left k test ≡ true
    → i < left
    → test (k + i) ≡ true
unfolding holds_from
holds_from-each test zero k i h lt = absurd (omega arith)
holds_from-each test (suc left) k zero h lt =
    let same : k + 0 ≡ k = omega arith in rw same (ground (arith, h))
holds_from-each test (suc left) k (suc i) h lt =
    let same : k + suc i ≡ k + 1 + i = omega arith in
    rw same (holds_from-each test left (k + 1) i (ground (arith, h)) (omega arith))

-- The digit of a number below 16, in upper case as RFC 3986 has it.
unfoldable pub hex_char : ℕ → ℕ
hex_char d = if ltb d 10 then d + b'0' else d + 55

-- The two digits of a byte read as the byte.
abbrev reads_back : ℕ → Bool
reads_back c = strtol16_char (hex_char (c / 16) ∷ hex_char (c % 16) ∷ []) == c

every_byte : holds_from 256 0 reads_back ≡ true
unfolding holds_from hex_char strtol16_char
every_byte = refl

pub strtol16_char-hex_char :
    (c : ℕ) → c < 256 → strtol16_char (hex_char (c / 16) ∷ hex_char (c % 16) ∷ []) ≡ c
strtol16_char-hex_char c h =
    let same : 0 + c ≡ c = omega arith in
    (==_iff _ c).0
      (subst (λ k. reads_back k ≡ true) same (holds_from-each reads_back 256 0 c every_byte h))
