-- ===== src/Util/Bounds.antt =====
-- `lwp_urldecode` is total, and its bounds.
use bluewing_cpp_server.Prelude.{
  ℕ, zero, suc, ◌-◌, ◌≤◌, ◌<◌, Bool, Option, none, some, [], ◌∷◌, ◌≡◌, ◌≢◌, ◌⊎◌, refl, ap, ◌∙◌,
  true, false, ◌++◌, arith, ◌==◌, inl, inr, Bool-cases, Bytes, length, drop,
}
use bluewing_cpp_server.Util.{
  Decoded, Round, refuse, fault, put, round, emit, carry_on, urldecode_loop, urldecode,
}

-- A round that writes has taken at least one byte of the input.
round-pos : (plus : Bool) (mem : Bytes) (left : ℕ) {b k : ℕ} → round plus mem left ≡ put b k → 0 < k
unfolding round
round-pos plus [] left e = cc
round-pos plus (c ∷ []) left e = ground arith
round-pos plus (c ∷ a ∷ []) left e = ground arith
round-pos plus (c ∷ a ∷ b ∷ mem) left e = ground arith

-- These characters, with a terminator behind them on success.
abbrev pub terminated : Bool → Bytes → Bytes
terminated true out = out ++ 0 ∷ []
terminated false out = out

terminated-cons :
    (ok : Bool) (b : ℕ) (out : Bytes) → b ∷ terminated ok out ≡ terminated ok (b ∷ out)
terminated-cons true b out = refl
terminated-cons false b out = refl

abbrev Within : ℕ → ℕ → Option Decoded → Type 0
Within left room none = Unit
Within left room (some d) =
    (length d.out ≤ left) × (length d.out ≤ room) × (d.memory ≡ terminated d.ok d.out)

emit-Within :
    (b left room k : ℕ) (o : Option Decoded)
    → left ≢ 0
    → room ≢ 0
    → 0 < k
    → Within (left - k) (room - 1) o
    → Within left room (emit b o)
emit-Within b left room k none l r p w = tt
emit-Within b left room k (some d) l r p (in_left, in_room, whole) =
    (omega arith, omega arith, ap (λ m. b ∷ m) whole ∙ terminated-cons d.ok b d.out)

carry_on-Within :
    (plus : Bool) (mem : Bytes) (left room : ℕ)
    → left ≢ 0
    → room ≢ 0
    → (r : Round) → round plus mem left ≡ r
    → (rest : ℕ → Option Decoded) → ((k : ℕ) → Within (left - k) (room - 1) (rest k))
    → Within left room (carry_on r rest)
carry_on-Within plus mem left room l f refuse e rest ih = (omega arith, omega arith, refl)
carry_on-Within plus mem left room l f fault e rest ih = tt
carry_on-Within plus mem left room l f (put b k) e rest ih =
    emit-Within b left room k (rest k) l f (round-pos plus mem left e) (ih k)

loop-Within :
    (fuel : ℕ) (plus : Bool) (mem : Bytes) (left room : ℕ)
    → Within left room (urldecode_loop fuel plus mem left room)
unfolding urldecode_loop
loop-Within zero plus mem left room = tt
loop-Within (suc fuel) plus mem left room = elim (Bool-cases (left == 0)) [
  | inl empty ↦ rw empty (omega arith, omega arith, refl)
  | inr more ↦ elim (Bool-cases (room == 0)) [
    | inl full ↦ rw (more, full) (omega arith, omega arith, refl)
    | inr free ↦
        rw (more, free)
          (carry_on-Within plus mem left room (ground arith) (ground arith) (round plus mem left)
            refl _ (λ k. loop-Within fuel plus (drop k mem) (left - k) (room - 1)))
  ]
]

-- Where decoding returns, the decoded characters number no more than the bytes of the input and no
-- more than the places of the output, on success and on failure. What is written are these characters,
-- and on success a terminator behind them: where they fill the output, it is one byte too many.
pub urldecode_bounds :
    (mem : Bytes) (in_length out_length : ℕ) (plus : Bool) {d : Decoded}
    → urldecode mem in_length out_length plus ≡ some d
    → (length d.out ≤ in_length) × (length d.out ≤ out_length) × (d.memory ≡ terminated d.ok d.out)
unfolding urldecode
urldecode_bounds mem in_length out_length plus h =
    rw h at (loop-Within (suc in_length) plus mem in_length out_length)

abbrev Enough : Bytes → ℕ → Type 0
Enough mem left = (left ≡ 0) ⊎ (left < length mem)

emit-ne-none : (b : ℕ) (o : Option Decoded) → o ≢ none → emit b o ≢ none
emit-ne-none b none h = h
emit-ne-none b (some d) h = λ e. cc

-- With a byte behind the input, no round faults, and the next one has enough too.
round-ne-fault :
    (plus : Bool) (mem : Bytes) (left : ℕ)
    → left ≢ 0
    → left < length mem
    → round plus mem left ≢ fault
unfolding round
round-ne-fault plus [] left l h = absurd (omega arith)
round-ne-fault plus (c ∷ []) left l h = absurd (omega arith)
round-ne-fault plus (c ∷ a ∷ []) left l h = ground arith
round-ne-fault plus (c ∷ a ∷ b ∷ mem) left l h = ground arith

round-Enough :
    (plus : Bool) (mem : Bytes) (left : ℕ) {b k : ℕ}
    → left ≢ 0
    → left < length mem
    → round plus mem left ≡ put b k
    → Enough (drop k mem) (left - k)
unfolding round
round-Enough plus [] left l h e = absurd (omega arith)
round-Enough plus (c ∷ []) left l h e = absurd (omega arith)
round-Enough plus (c ∷ a ∷ []) left l h e = ground arith
round-Enough plus (c ∷ a ∷ b ∷ mem) left l h e = ground arith

carry_on_total :
    (fuel : ℕ) (plus : Bool) (mem : Bytes) (left : ℕ)
    → left ≤ fuel
    → left ≢ 0
    → left < length mem
    → (r : Round) → round plus mem left ≡ r
    → (rest : ℕ → Option Decoded)
    → ((k : ℕ) → left - k < fuel → Enough (drop k mem) (left - k) → rest k ≢ none)
    → carry_on r rest ≢ none
carry_on_total fuel plus mem left f l m refuse e rest ih = λ x. cc
carry_on_total fuel plus mem left f l m fault e rest ih =
    absurd (round-ne-fault plus mem left l m e)
carry_on_total fuel plus mem left f l m (put b k) e rest ih =
    emit-ne-none b (rest k)
      (ih k (omega (arith, round-pos plus mem left e)) (round-Enough plus mem left l m e))

loop_total :
    (fuel : ℕ) (plus : Bool) (mem : Bytes) (left room : ℕ)
    → left < fuel
    → Enough mem left
    → urldecode_loop fuel plus mem left room ≢ none
unfolding urldecode_loop
loop_total zero plus mem left room f h = absurd (omega arith)
loop_total (suc fuel) plus mem left room f h = elim (Bool-cases (left == 0)) [
  | inl empty ↦ rw empty (λ e. cc)
  | inr more ↦ elim (Bool-cases (room == 0)) [
    | inl full ↦ rw (more, full) (λ e. cc)
    | inr free ↦
        rw (more, free)
          (carry_on_total fuel plus mem left (omega arith) (ground arith) (ground arith)
            (round plus mem left) refl _
            (λ k. loop_total fuel plus (drop k mem) (left - k) (room - 1)))
  ]
]

-- With at least one byte of memory behind the input, decoding returns: the loop ends within its
-- fuel and reads nothing past that byte.
pub urldecode_total :
    (mem : Bytes) (in_length out_length : ℕ) (plus : Bool)
    → in_length < length mem
    → urldecode mem in_length out_length plus ≢ none
unfolding urldecode
urldecode_total mem in_length out_length plus h =
    loop_total (suc in_length) plus mem in_length out_length (omega arith) (inr h)
