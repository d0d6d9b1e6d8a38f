-- ===== src/Util.antt =====
-- Lacewing/src/util.c: the string helpers. The socket helpers are system calls.
pub mod Decode
pub mod Bounds
use bluewing_cpp_server.Prelude.{
  ℕ, zero, suc, ◌-◌, Bool, true, false, ◌&&◌, ◌||◌, not, Option, none, some, [], ◌∷◌, ltb, ◌==◌,
  if◌then◌else◌, Bytes, length, take, drop,
}
use bluewing_cpp_server.CLib.{tolower, cstr, strtol16_char}

-- What `lwp_urldecode` returns, the characters that it has decoded, and the bytes that it has written
-- from `out` on, which on success end with the terminator.
pub record Decoded : Type 0 where
  pub ok : Bool
  pub out : Bytes
  pub memory : Bytes

-- A round of the loop: it refuses the input, reads past the memory that there is, or writes a byte
-- for so many bytes of input.
pub data Round : Type 0 where
  refuse : Round
  fault : Round
  put : ℕ → ℕ → Round

abbrev escaped : Bytes → Round
escaped (a ∷ b ∷ _) = put (strtol16_char (a ∷ b ∷ [])) 3
escaped _ = fault

-- `left` is `in_length - cur_in`.
pub round : Bool → Bytes → ℕ → Round
round plus [] left = fault
round plus (c ∷ mem) left =
    if c == b'%'
    then if ltb left 2 then refuse else escaped mem
    else put (if plus && c == b'+' then b' ' else c) 1

abbrev pub emit : ℕ → Option Decoded → Option Decoded
emit b none = none
emit b (some d) = some (record { ok = d.ok; out = b ∷ d.out; memory = b ∷ d.memory })

-- The rest of the loop is a function of the input taken.
abbrev pub carry_on : Round → (ℕ → Option Decoded) → Option Decoded
carry_on refuse rest = some (record { ok = false; out = []; memory = [] })
carry_on fault rest = none
carry_on (put b k) rest = emit b (rest k)

-- `mem` is the memory from `in + cur_in` on, `room` is `out_length - cur_out`.
pub urldecode_loop : ℕ → Bool → Bytes → ℕ → ℕ → Option Decoded
urldecode_loop zero plus mem left room = none
urldecode_loop (suc fuel) plus mem left room =
    if left == 0
    then some (record { ok = true; out = []; memory = 0 ∷ [] })
    else if room == 0
    then some (record { ok = false; out = []; memory = [] })
    else carry_on (round plus mem left)
        (λ k. urldecode_loop fuel plus (drop k mem) (left - k) (room - 1))

-- `none` is a read past the end of `mem`. The terminator goes behind the last place of a full output.
unfoldable pub urldecode : Bytes → ℕ → ℕ → Bool → Option Decoded
unfolding urldecode_loop round
urldecode mem in_length out_length plus =
    urldecode_loop (suc in_length) plus mem in_length out_length

-- Both are C strings.
unfoldable pub begins_with : Bytes → Bytes → Bool
begins_with string [] = true
begins_with [] (c ∷ substring) = false
begins_with (b ∷ string) (c ∷ substring) = b == c && begins_with string substring

-- What the string in `dest` reads as afterwards; `size` is the room of `dest`, at least 1.
unfoldable pub copy_string : Bytes → ℕ → Bytes
copy_string source size =
    let room = size - 1 in take (if ltb room (length source) then room else length source) source

-- The pointer and the length that are left, and whether the character stands there.
unfoldable pub find_char : Bytes → ℕ → Bool × Bytes
find_char [] c = (false, [])
find_char (b ∷ str) c = if b == c then (true, b ∷ str) else find_char str c

unfoldable pub to_lowercase : Bytes → Bytes
to_lowercase [] = []
to_lowercase (c ∷ str) = tolower c ∷ to_lowercase str
