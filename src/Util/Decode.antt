-- ===== src/Util/Decode.antt =====
-- `lwp_urldecode` against percent-encoding.
use bluewing_cpp_server.Prelude.{
  ℕ, zero, suc, ◌+◌, ◌-◌, ◌/◌, ◌%◌, ◌≤◌, ◌<◌, Bool, true, Option, none, some, [], ◌∷◌, ◌++◌, ◌≡◌,
  ◌∙◌, ◌≢◌, append-nil, refl, arith, if◌then◌else◌, inl, inr, Bool-cases, Bytes, length, All,
}
use Prim.Native.Nat.add
use bluewing_cpp_server.CLib.Hex.{hex_char, strtol16_char-hex_char}
use bluewing_cpp_server.Util.{Decoded, round, emit, urldecode_loop, urldecode}

-- Percent-encoding, with the characters of `keep` written as they are.
unfoldable pub percent_encode : (ℕ → Bool) → Bytes → Bytes
percent_encode keep [] = []
percent_encode keep (c ∷ cs) =
    let rest = percent_encode keep cs in
    if keep c then c ∷ rest else b'%' ∷ hex_char (c / 16) ∷ hex_char (c % 16) ∷ rest

-- What may be kept: neither the escape character nor the one that stands for a space.
abbrev pub KeepsLiterals : (ℕ → Bool) → Type 0
KeepsLiterals keep = (c : ℕ) → keep c ≡ true → (c ≢ b'%') × (c ≢ b'+')

abbrev emit_all : Bytes → Option Decoded → Option Decoded
emit_all [] o = o
emit_all (c ∷ s) o = emit c (emit_all s o)

emit_all-some :
    (s : Bytes) (d : Decoded)
    → emit_all s (some d) ≡ some (record { ok = d.ok; out = s ++ d.out; memory = s ++ d.memory })
emit_all-some [] d = refl
emit_all-some (c ∷ s) d = rw (emit_all-some s d)

emit_all-none : (s : Bytes) → emit_all s none ≡ none
emit_all-none [] = refl
emit_all-none (c ∷ s) = rw (emit_all-none s)

module _ (keep : ℕ → Bool) (literal : KeepsLiterals keep) (plus : Bool) (rest : Bytes) where
  -- The loop takes an encoded string off its input, and goes on behind it.
  loop-encode :
      (s : Bytes) (fuel left room : ℕ)
      → All (λ c. c < 256) s
      → urldecode_loop
          (length s + fuel)
          plus
          (percent_encode keep s ++ rest)
          (length (percent_encode keep s) + left)
          (length s + room)
        ≡ emit_all s (urldecode_loop fuel plus rest left room)
  unfolding urldecode_loop round percent_encode
  loop-encode [] fuel left room bytes = simp add.zero
  loop-encode (c ∷ s) fuel left room (byte, bytes) = simp add.suc (elim (Bool-cases (keep c)) [
    | inl kept ↦ ground (arith, kept, literal c, loop-encode s fuel left room bytes)
    | inr coded ↦
        ground (arith, coded, strtol16_char-hex_char c byte, loop-encode s fuel left room bytes)
  ])

-- An encoded string is at least as long as the string.
pub length-percent_encode :
    (keep : ℕ → Bool) (s : Bytes) → length s ≤ length (percent_encode keep s)
unfolding percent_encode
length-percent_encode keep [] = omega arith
length-percent_encode keep (c ∷ s) = ground (arith, length-percent_encode keep s)

pub urldecode_lem :
    (mem : Bytes) (n m : ℕ) (plus : Bool)
    → urldecode mem n m plus ≡ urldecode_loop (suc n) plus mem n m
unfolding urldecode
urldecode_lem mem n m plus = refl

loop_end :
    (fuel : ℕ) (plus : Bool) (mem : Bytes) (room : ℕ)
    → 0 < fuel
    → urldecode_loop fuel plus mem 0 room ≡ some (record { ok = true; out = []; memory = 0 ∷ [] })
unfolding urldecode_loop
loop_end zero plus mem room h = absurd (omega arith)
loop_end (suc fuel) plus mem room h = refl

loop-cut_off :
    (fuel : ℕ) (plus : Bool) (digit room : ℕ)
    → 0 < fuel
    → 0 < room
    → urldecode_loop fuel plus (b'%' ∷ digit ∷ []) 2 room ≡ none
unfolding urldecode_loop round
loop-cut_off zero plus digit room h r = absurd (omega arith)
loop-cut_off (suc fuel) plus digit zero h r = absurd (omega arith)
loop-cut_off (suc fuel) plus digit (suc room) h r = ground arith

loop-encode_within :
    (keep : ℕ → Bool)
    → KeepsLiterals keep
    → (plus : Bool) (rest s : Bytes) (fuel total room left : ℕ) → All (λ c. c < 256) s
    → length s ≤ fuel
    → total ≡ length (percent_encode keep s) + left
    → length s ≤ room
    → urldecode_loop fuel plus (percent_encode keep s ++ rest) total room
      ≡ emit_all s (urldecode_loop (fuel - length s) plus rest left (room - length s))
loop-encode_within keep literal plus rest s fuel total room left bytes f t r =
    let fuel_eq : length s + (fuel - length s) ≡ fuel = omega arith in
    let room_eq : length s + (room - length s) ≡ room = omega arith in
    rw t (
      rw fuel_eq at (
        rw room_eq at
          (loop-encode keep literal plus rest s (fuel - length s) left (room - length s) bytes)))

-- Percent-encoding of bytes that keeps neither '%' nor '+' is decoded to these bytes, whatever
-- follows in memory and whether or not '+' is a space, if the output has at least their number of
-- places, and terminated behind them.
pub urldecode-percent_encode :
    (keep : ℕ → Bool) (plus : Bool) (s rest : Bytes) (room : ℕ)
    → KeepsLiterals keep
    → All (λ c. c < 256) s
    → length s ≤ room
    → urldecode (percent_encode keep s ++ rest) (length (percent_encode keep s)) room plus
      ≡ some (record { ok = true; out = s; memory = s ++ 0 ∷ [] })
urldecode-percent_encode keep plus s rest room literal bytes fits =
    let enough = length-percent_encode keep s in
    let total = length (percent_encode keep s) in
    rw urldecode_lem (
      loop-encode_within keep literal plus rest s (suc total) total room 0 bytes (omega arith)
        (omega arith) fits
      ∙ rw (
        loop_end (suc total - length s) plus rest (room - length s) (omega arith),
        emit_all-some s,
        append-nil,
      ))

-- Where the input ends one digit after a '%', behind encoded bytes and with room for one more, the
-- test for the end of the input lets it pass, and the read goes past the end of memory that ends
-- there too.
pub urldecode-cut_off :
    (keep : ℕ → Bool) (plus : Bool) (s : Bytes) (digit room : ℕ)
    → KeepsLiterals keep
    → All (λ c. c < 256) s
    → length s < room
    → urldecode
        (percent_encode keep s ++ b'%' ∷ digit ∷ [])
        (length (percent_encode keep s) + 2)
        room
        plus
      ≡ none
urldecode-cut_off keep plus s digit room literal bytes fits =
    let enough = length-percent_encode keep s in
    let total = length (percent_encode keep s) + 2 in
    rw urldecode_lem (
      loop-encode_within keep literal plus (b'%' ∷ digit ∷ []) s (suc total) total room 2 bytes
        (omega arith) refl (omega arith)
      ∙ rw
          (loop-cut_off (suc total - length s) plus digit (room - length s) (omega arith)
            (omega arith))
          (emit_all-none s))
