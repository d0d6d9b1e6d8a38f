-- ===== src/CLib.antt =====
-- What the program uses of the C library, in the "C" locale: `tolower`, `isspace`, the equality
-- tests of `strcasecmp`, `strtol` in base 16 on two characters, and what a string function sees of
-- the bytes that it is given.
pub mod Hex
pub mod Decimal
use bluewing_cpp_server.Prelude.{
  ℕ, ◌+◌, ◌-◌, ◌*◌, ◌%◌, Bool, true, false, ◌&&◌, ◌||◌, Option, none, some, [], ◌∷◌, map, leb, ◌≢◌,
  All, ◌==◌, if◌then◌else◌, Bytes, bytes_eq,
}

abbrev pub within : ℕ → ℕ → ℕ → Bool
within lo hi c = leb lo c && leb c hi

unfoldable pub tolower : ℕ → ℕ
tolower c = if within b'A' b'Z' c then c + 32 else c

unfoldable pub isspace : ℕ → Bool
isspace c = c == b' ' || within 9 13 c

-- The C string at the head of these bytes: what stands before the first NUL.
unfoldable pub cstr : Bytes → Bytes
cstr [] = []
cstr (c ∷ cs) = if c == 0 then [] else c ∷ cstr cs

-- A C string: no byte of it is NUL.
abbrev pub IsCstr : Bytes → Type 0
IsCstr s = All (λ c. c ≢ 0) s

-- !strcasecmp (a, b)
unfoldable pub strcaseeq : Bytes → Bytes → Bool
strcaseeq a b = bytes_eq (map tolower a) (map tolower b)

unfoldable pub hex_digit : ℕ → Option ℕ
hex_digit c =
    if within b'0' b'9' c
    then some (c - b'0')
    else if within b'a' b'f' c
    then some (c - b'a' + 10)
    else if within b'A' b'F' c
    then some (c - b'A' + 10)
    else none

-- The digits of `strtol`, up to the first character that is none.
hex_digits : ℕ → Bytes → ℕ
hex_digits acc [] = acc
hex_digits acc (c ∷ cs) = elim (hex_digit c) [ none ↦ acc | some d ↦ hex_digits (acc * 16 + d) cs ]

hex_signed : Bytes → ℕ
hex_signed [] = 0
hex_signed (c ∷ cs) =
    if c == b'-'
    then (256 - hex_digits 0 cs % 256) % 256
    else if c == b'+'
    then hex_digits 0 cs % 256
    else hex_digits 0 (c ∷ cs) % 256

skip_spaces : Bytes → Bytes
skip_spaces [] = []
skip_spaces (c ∷ cs) = let rest = skip_spaces cs in if isspace c then rest else c ∷ cs

-- `(char) strtol (n, 0, 16)` for a string of at most two characters: leading spaces, a sign and
-- digits. The optional "0x" leaves no room for a digit, so the result is 0 with or without it.
unfoldable pub strtol16_char : Bytes → ℕ
unfolding hex_digits hex_signed skip_spaces hex_digit isspace cstr
strtol16_char n = hex_signed (skip_spaces (cstr n))
