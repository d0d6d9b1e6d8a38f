-- ===== src/HeapBuffer/Refine.antt =====
-- A valid buffer behaves as the queue of the bytes between its offset and its length.
use bluewing_cpp_server.Prelude.{
  ℕ, ◌+◌, ◌-◌, ◌≤◌, ◌<◌, Bool, true, Option, none, some, [], ◌++◌, ◌≡◌, ◌∙◌, refl, sym, ap, arith,
  ◌==◌, Bool-cases, inl, inr, Bytes, length, take, drop, ◌∷◌, length-take, length-drop,
  take-append_add, take-append, drop-append_le, take-take, append-nil, drop-drop, take-drop,
}
use bluewing_cpp_server.HeapBuffer.{
  HeapBuffer, size_add, size_sub, write_at, reserve, append, add, reset, trim_left, trim_right,
  pending,
}
use bluewing_cpp_server.HeapBuffer.Inv.{
  IsValid, IsSound, used, max_used, Reserved, reserve-Reserved, add_lem,
}

abbrev pub contents : Option HeapBuffer → Bytes
contents none = []
contents (some hb) = drop hb.offset (take hb.length hb.buffer)

pub take-write_at :
    (buffer bytes : Bytes) (at : ℕ)
    → at ≤ length buffer
    → take (at + length bytes) (write_at buffer at bytes) ≡ take at buffer ++ bytes
take-write_at buffer bytes at h =
    let e : at ≡ length (take at buffer) = omega (arith, length-take at buffer) in
    ap (λ k. take (k + length bytes) (write_at buffer at bytes)) e
    ∙ take-append_add (take at buffer) (bytes ++ drop (at + length bytes) buffer) (length bytes)
    ∙ ap (λ k. take at buffer ++ k) (take-append bytes (drop (at + length bytes) buffer))

append-contents :
    (hb : HeapBuffer) (bytes : Bytes)
    → IsSound hb
    → hb.length + length bytes ≤ max_used
    → contents (append (some hb) bytes).0 ≡ contents (some hb) ++ bytes
unfolding append
append-contents hb bytes v small =
    let no_wrap : size_add hb.length (length bytes) ≡ hb.length + length bytes = omega arith in
    rw (no_wrap, take-write_at hb.buffer bytes hb.length v.written)
      (drop-append_le hb.offset (take hb.length hb.buffer) bytes
        (omega (arith, length-take hb.length hb.buffer)))

-- A reservation leaves the queue as it is.
Reserved-contents :
    (ctx : Option HeapBuffer) (n : ℕ) (hb : HeapBuffer)
    → Reserved ctx n hb
    → contents (some hb) ≡ contents ctx
Reserved-contents none n hb r = ground (arith, r.fresh refl, r.length_same)
Reserved-contents (some old) n hb r = ground (arith, r.same old refl, r.length_same)

append_refines :
    (alloc : ℕ → Bool) (ctx : Option HeapBuffer) (bytes : Bytes) (o : Option HeapBuffer)
    → reserve alloc ctx (length bytes) ≡ o
    → IsValid ctx
    → used ctx + length bytes ≤ max_used
    → 0 < length bytes
    → (append o bytes).1 ≡ true
    → contents (append o bytes).0 ≡ contents ctx ++ bytes
append_refines alloc ctx bytes none e v small p done = unfold append in cc
append_refines alloc ctx bytes (some hb) e v small p done =
    let r = reserve-Reserved alloc ctx (length bytes) v p small e in
    append-contents hb bytes r.sound (omega (arith, r.length_same))
    ∙ ap (λ k. k ++ bytes) (Reserved-contents ctx (length bytes) hb r)

nil_of_length : (bytes : Bytes) → length bytes ≡ 0 → bytes ≡ []
nil_of_length [] h = refl
nil_of_length (c ∷ bytes) h = absurd (omega arith)

-- Where adding all of some bytes to a valid buffer succeeds, and what it has taken stays within 2 ^
-- 62 bytes, the bytes stand behind those that were pending.
pub add-contents :
    (alloc : ℕ → Bool) (ctx : Option HeapBuffer) (bytes : Bytes) (n : ℕ)
    → IsValid ctx
    → used ctx + length bytes ≤ max_used
    → n ≡ length bytes
    → (add alloc ctx bytes n).1 ≡ true
    → contents (add alloc ctx bytes n).0 ≡ contents ctx ++ bytes
add-contents alloc ctx bytes n v small e =
    rw (add_lem alloc ctx bytes n e (omega arith)) (elim (Bool-cases (length bytes == 0)) [
      | inl empty ↦ rw empty (λ done. rw (nil_of_length bytes (ground arith), append-nil))
      | inr more ↦ rw more (append_refines alloc ctx bytes _ refl v small (ground arith))
    ])

-- It succeeds wherever the allocator does.
pub add_succeeds :
    (ctx : Option HeapBuffer) (bytes : Bytes) (n : ℕ) → (add (λ _. true) ctx bytes n).1 ≡ true
unfolding add reserve append
add_succeeds none bytes n = ground arith
add_succeeds (some hb) bytes n = ground arith

used-append :
    (alloc : ℕ → Bool) (ctx : Option HeapBuffer) (bytes : Bytes) (o : Option HeapBuffer)
    → reserve alloc ctx (length bytes) ≡ o
    → IsValid ctx
    → used ctx + length bytes ≤ max_used
    → 0 < length bytes
    → used (append o bytes).0 ≤ used ctx + length bytes
unfolding append
used-append alloc ctx bytes none e v small p = omega arith
used-append alloc ctx bytes (some hb) e v small p =
    let r = reserve-Reserved alloc ctx (length bytes) v p small e in omega (arith, r.length_same)

-- The buffer takes no more than the bytes that are added.
pub used-add :
    (alloc : ℕ → Bool) (ctx : Option HeapBuffer) (bytes : Bytes) (n : ℕ)
    → IsValid ctx
    → used ctx + length bytes ≤ max_used
    → n ≡ length bytes
    → used (add alloc ctx bytes n).0 ≤ used ctx + length bytes
used-add alloc ctx bytes n v small e =
    rw (add_lem alloc ctx bytes n e (omega arith)) (elim (Bool-cases (length bytes == 0)) [
      | inl empty ↦ rw empty (omega arith)
      | inr more ↦ rw more (used-append alloc ctx bytes _ refl v small (ground arith))
    ])

-- Trimming at the left of a valid buffer takes off that many of the pending bytes, if there are so
-- many.
pub trim_left-contents :
    (hb : HeapBuffer) (n : ℕ)
    → IsSound hb
    → hb.offset + n ≤ hb.length
    → contents (trim_left (some hb) n) ≡ drop n (contents (some hb))
unfolding trim_left
trim_left-contents hb n v h =
    let no_wrap : size_add hb.offset n ≡ hb.offset + n = omega arith in
    rw no_wrap (sym (drop-drop n hb.offset (take hb.length hb.buffer)))

-- Trimming at the right of a valid buffer takes off that many of the last pending bytes, if there
-- are so many.
pub trim_right-contents :
    (hb : HeapBuffer) (n : ℕ)
    → IsSound hb
    → hb.offset + n ≤ hb.length
    → contents (trim_right (some hb) n)
      ≡ take (length (contents (some hb)) - n) (contents (some hb))
unfolding trim_right
trim_right-contents hb n v h =
    let left = take hb.length hb.buffer in
    let size : length (drop hb.offset left) ≡ hb.length - hb.offset =
      omega (arith, length-drop hb.offset left, length-take hb.length hb.buffer) in
    let no_wrap : size_sub hb.length n ≡ hb.length - n = omega arith in
    let end : hb.offset + (hb.length - hb.offset - n) ≡ hb.length - n = omega arith in
    rw (no_wrap, size, take-drop (hb.length - hb.offset - n) hb.offset left, end)
      (ap (drop hb.offset) (sym (take-take (hb.length - n) hb.length hb.buffer (omega arith))))

pub reset-contents : (ctx : Option HeapBuffer) → contents (reset ctx) ≡ []
unfolding reset
reset-contents none = refl
reset-contents (some hb) = refl

-- The length of what is pending, and whether there is any, are those of the queue.
pub pending-contents : (ctx : Option HeapBuffer) → IsValid ctx → pending ctx ≡ length (contents ctx)
unfolding pending
pending-contents none v = refl
pending-contents (some hb) v =
    omega (arith, length-drop hb.offset (take hb.length hb.buffer), length-take hb.length hb.buffer)
