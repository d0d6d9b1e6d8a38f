-- ===== src/HeapBuffer/Inv.antt =====
-- The invariant of the buffer: what is written lies in the allocation, and sizes do not wrap.
use bluewing_cpp_server.Prelude.{
  ℕ, zero, suc, ◌+◌, ◌*◌, ◌%◌, ◌^◌, ◌≤◌, ◌<◌, Bool, true, Option, none, some, [], ◌++◌, ◌≡◌, refl,
  arith, ltb, ◌==◌, if◌then◌else◌, Bool-cases, inl, inr, Bytes, length, take, drop, max, take_all,
  length-append, length-take, length-drop,
}
use bluewing_cpp_server.HeapBuffer.{
  HeapBuffer, size_mod, size_add, write_at, grow, reserve, append, add, reset, trim_left,
  trim_right,
}

pub record IsSound (hb : HeapBuffer) : Type 0 where
  pub written : hb.length ≤ length hb.buffer
  pub held : length hb.buffer ≤ hb.allocated
  pub started : hb.offset ≤ hb.length
  pub positive : 0 < hb.allocated
  pub word : hb.allocated < size_mod

abbrev pub IsValid : Option HeapBuffer → Type 0
IsValid none = Unit
IsValid (some hb) = IsSound hb

-- The bytes that the buffer has taken since it was last empty.
abbrev pub used : Option HeapBuffer → ℕ
used none = 0
used (some hb) = hb.length

abbrev pub max_used : ℕ
max_used = 2 ^ 62

-- Tripling reaches the length that is asked for before it can wrap.
pub grow_lem :
    (fuel new_length allocated : ℕ)
    → 0 < allocated
    → allocated < size_mod
    → new_length ≤ max_used
    → new_length ≤ allocated + fuel
    → (new_length ≤ grow fuel new_length allocated)
      × (allocated ≤ grow fuel new_length allocated)
      × (grow fuel new_length allocated < size_mod)
unfolding grow
grow_lem zero new_length allocated p w small enough = omega arith
grow_lem (suc fuel) new_length allocated p w small enough =
    elim (Bool-cases (ltb allocated new_length)) [
      | inl more ↦ ground (arith, more, grow_lem fuel new_length (allocated * 3 % size_mod))
      | inr done ↦ ground (arith, done)
    ]

-- What `reserve` leaves: the same bytes, with room for `n` more.
pub record Reserved (ctx : Option HeapBuffer) (n : ℕ) (hb : HeapBuffer) : Type 0 where
  pub sound : IsSound hb
  pub room : hb.length + n ≤ hb.allocated
  pub length_same : hb.length ≡ used ctx
  pub same :
      (hb' : HeapBuffer) → ctx ≡ some hb' → (hb.offset ≡ hb'.offset) × (hb.buffer ≡ hb'.buffer)
  pub fresh : ctx ≡ none → (hb.offset ≡ 0) × (hb.buffer ≡ [])

pub reserve-Reserved :
    (alloc : ℕ → Bool) (ctx : Option HeapBuffer) (n : ℕ) {hb : HeapBuffer}
    → IsValid ctx
    → 0 < n
    → used ctx + n ≤ max_used
    → reserve alloc ctx n ≡ some hb
    → Reserved ctx n hb
unfolding reserve
reserve-Reserved alloc none n v p small e = record {
  sound = ground arith;
  room = ground arith;
  length_same = ground arith;
  same = λ hb' x. cc;
  fresh = λ x. ground arith;
}
reserve-Reserved alloc (some old) n v p small e = record {
  sound = ground (arith, grown);
  room = ground (arith, grown);
  length_same = ground arith;
  same = λ hb' x. ground arith;
  fresh = λ x. cc;
}
  where
    grown :
        (old.length + n ≤ grow (size_add old.length n) (size_add old.length n) old.allocated)
        × (old.allocated ≤ grow (size_add old.length n) (size_add old.length n) old.allocated)
        × (grow (size_add old.length n) (size_add old.length n) old.allocated < size_mod)
    grown = omega (arith, grow_lem (size_add old.length n) (size_add old.length n) old.allocated)

length-write_at :
    (buffer bytes : Bytes) (at : ℕ)
    → at ≤ length buffer
    → length (write_at buffer at bytes) ≡ max (length buffer) (at + length bytes)
length-write_at buffer bytes at h = omega (
  arith,
  length-append (take at buffer) (bytes ++ drop (at + length bytes) buffer),
  length-append bytes (drop (at + length bytes) buffer),
  length-take at buffer,
  length-drop (at + length bytes) buffer,
)

append-IsSound :
    (hb : HeapBuffer) (bytes : Bytes)
    → IsSound hb
    → hb.length + length bytes ≤ hb.allocated
    → IsValid (append (some hb) bytes).0
unfolding append
append-IsSound hb bytes v room = omega (arith, length-write_at hb.buffer bytes hb.length v.written)

-- Of a length that is no sentinel, `add` takes the bytes as they are.
pub add_lem :
    (alloc : ℕ → Bool) (ctx : Option HeapBuffer) (bytes : Bytes) (n : ℕ)
    → n ≡ length bytes
    → n ≤ max_used
    → add alloc ctx bytes n
      ≡ (if length bytes == 0 then (ctx, true) else append (reserve alloc ctx (length bytes)) bytes)
unfolding add
add_lem alloc ctx bytes n e small = ground (arith, take_all n bytes)

append-IsValid :
    (alloc : ℕ → Bool) (ctx : Option HeapBuffer) (bytes : Bytes) (o : Option HeapBuffer)
    → reserve alloc ctx (length bytes) ≡ o
    → IsValid ctx
    → used ctx + length bytes ≤ max_used
    → 0 < length bytes
    → IsValid (append o bytes).0
append-IsValid alloc ctx bytes none e v small p = unfold append in tt
append-IsValid alloc ctx bytes (some hb) e v small p =
    let r = reserve-Reserved alloc ctx (length bytes) v p small e in
    append-IsSound hb bytes r.sound r.room

-- Adding all of some bytes to a valid buffer leaves it valid, or null where there is no memory,
-- while what it has taken stays within 2 ^ 62 bytes: the growing loop reaches the length without
-- wrapping, and what is written lies in the allocation.
pub add-IsValid :
    (alloc : ℕ → Bool) (ctx : Option HeapBuffer) (bytes : Bytes) (n : ℕ)
    → IsValid ctx
    → used ctx + length bytes ≤ max_used
    → n ≡ length bytes
    → IsValid (add alloc ctx bytes n).0
add-IsValid alloc ctx bytes n v small e =
    rw (add_lem alloc ctx bytes n e (omega arith)) (elim (Bool-cases (length bytes == 0)) [
      | inl empty ↦ rw empty v
      | inr more ↦ rw more (append-IsValid alloc ctx bytes _ refl v small (ground arith))
    ])

-- `lwp_heapbuffer_trim_left` keeps the invariant, up to the bytes that are pending.
pub trim_left-IsValid :
    (hb : HeapBuffer) (n : ℕ)
    → IsSound hb
    → hb.offset + n ≤ hb.length
    → IsValid (trim_left (some hb) n)
unfolding trim_left
trim_left-IsValid hb n v h = omega arith

pub trim_right-IsValid :
    (hb : HeapBuffer) (n : ℕ)
    → IsSound hb
    → hb.offset + n ≤ hb.length
    → IsValid (trim_right (some hb) n)
unfolding trim_right
trim_right-IsValid hb n v h = omega arith

pub reset-IsValid : (ctx : Option HeapBuffer) → IsValid ctx → IsValid (reset ctx)
unfolding reset
reset-IsValid none v = tt
reset-IsValid (some hb) v = omega arith
