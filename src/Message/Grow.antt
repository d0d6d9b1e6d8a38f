-- ===== src/Message/Grow.antt =====
-- The memory of a message under construction.
use bluewing_cpp_server.Prelude.{
  ℕ, ◌+◌, ◌^◌, ◌<◌, ◌≤◌, Bool, true, false, Option, some, List, [], ◌∷◌, ◌++◌, ltb, ◌>>=◌, Bytes,
  length, take, drop, ◌≡◌, refl, sym, arith, inl, inr, ap, ◌∙◌, Bool-cases, subst, length-append,
  length-take, length-drop, append_assoc, append-nil,
}
use bluewing_cpp_server.HeapBuffer.{write_at}
use bluewing_cpp_server.HeapBuffer.Refine.{take-write_at}
use bluewing_cpp_server.Message.{Field, encode, encode_all}
use bluewing_cpp_server.Message.Builder.{Builder, new, ui32, grown, put, add, add_all}

-- What has been written lies within the allocation.
pub record Valid (b : Builder) : Type 0 where
  pub written : b.size ≤ length b.buffer
  pub held : length b.buffer ≤ b.allocated

abbrev pub contents : Builder → Bytes
contents b = take b.size b.buffer

pub new-Valid : Valid new
unfolding new
new-Valid = record { written = omega arith; held = omega arith }

-- The largest message that is spoken of here, so that no size wraps.
abbrev pub max_message : ℕ
max_message = 2 ^ 30

grown_room :
    (b : Builder) (n : ℕ)
    → b.size + n < max_message
    → b.size ≤ b.allocated
    → b.allocated < b.size + n
    → (b.size + n ≤ grown b n) × (b.allocated ≤ grown b n)
unfolding grown
grown_room b n small v l = ground arith

-- A call that puts these bytes behind the contents, within the allocation.
abbrev pub Puts : Option Builder → Builder → Bytes → Type 0
Puts result b bytes =
    (c : Builder) × (result ≡ some c)
    × Valid c
    × (c.size ≡ b.size + length bytes)
    × (contents c ≡ contents b ++ bytes)

length-write_at :
    (buffer bytes : Bytes) (at room : ℕ)
    → at ≤ length buffer
    → length buffer ≤ room
    → at + length bytes ≤ room
    → (at + length bytes ≤ length (write_at buffer at bytes))
      × (length (write_at buffer at bytes) ≤ room)
length-write_at buffer bytes at room h k l = omega (
  arith,
  length-append (take at buffer) (bytes ++ drop (at + length bytes) buffer),
  length-append bytes (drop (at + length bytes) buffer),
  length-take at buffer,
  length-drop (at + length bytes) buffer,
)

put-Puts :
    (b : Builder) (bytes : Bytes)
    → Valid b
    → b.size + length bytes < max_message
    → b.size + length bytes ≤ b.allocated
    → Puts (some (put b bytes)) b bytes
unfolding put
put-Puts b bytes v small room =
    let e : ui32 (b.size + ui32 (length bytes)) ≡ b.size + length bytes = omega arith in
    let (w, h) = length-write_at b.buffer bytes b.size b.allocated v.written v.held room in
    (
      put b bytes,
      refl,
      record { written = omega arith; held = h },
      e,
      ap (λ k. take k (write_at b.buffer b.size bytes)) e
          ∙ take-write_at b.buffer bytes b.size v.written,
    )

add_fits :
    (alloc : ℕ → Bool) (b : Builder) (bytes : Bytes)
    → ltb b.allocated (ui32 (b.size + ui32 (length bytes))) ≡ false
    → add alloc b bytes ≡ some (put b bytes)
unfolding add
add_fits alloc b bytes e = rw e refl

add_grows :
    (alloc : ℕ → Bool) (b : Builder) (bytes : Bytes)
    → ltb b.allocated (ui32 (b.size + ui32 (length bytes))) ≡ true
    → alloc (grown b (ui32 (length bytes))) ≡ true
    → add alloc b bytes ≡ some (put (record b { allocated = grown b (ui32 (length bytes)) }) bytes)
unfolding add
add_grows alloc b bytes e a = rw (e, a) refl

-- Adding bytes to a message puts them behind it, whether or not the allocation has to grow.
pub add-Puts :
    (alloc : ℕ → Bool) (b : Builder) (bytes : Bytes)
    → ((n : ℕ) → alloc n ≡ true)
    → Valid b
    → b.size + length bytes < max_message
    → Puts (add alloc b bytes) b bytes
add-Puts alloc b bytes a v small =
    let n = ui32 (length bytes) in
    let e : n ≡ length bytes = omega arith in
    elim (Bool-cases (ltb b.allocated (ui32 (b.size + n)))) [
      | inr fits ↦
          subst (λ r. Puts r b bytes) (sym (add_fits alloc b bytes fits))
            (put-Puts b bytes v small (ground (arith, fits)))
      | inl full ↦
          let (r, s) =
            grown_room b n (omega arith) (omega (arith, v.written, v.held))
              (ground (arith, full)) in
          subst (λ x. Puts x b bytes) (sym (add_grows alloc b bytes full (a (grown b n))))
            (put-Puts (record b { allocated = grown b n }) bytes
              (record { written = v.written; held = omega (arith, v.held) }) small (omega arith))
    ]

-- Adding fields puts their encoding behind the message.
pub add_all-Puts :
    (alloc : ℕ → Bool) (b : Builder) (fields : List Field)
    → ((n : ℕ) → alloc n ≡ true)
    → Valid b
    → b.size + length (encode_all fields) < max_message
    → Puts (add_all alloc b fields) b (encode_all fields)
unfolding add_all encode_all
add_all-Puts alloc b [] a v small = (b, refl, v, omega arith, sym (append-nil (contents b)))
add_all-Puts alloc b (f ∷ fields) a v small =
    let l = length-append (encode f) (encode_all fields) in
    let (c, r, w, s, e) = add-Puts alloc b (encode f) a v (omega (arith, l)) in
    let (d, q, x, t, g) = add_all-Puts alloc c fields a w (omega (arith, l)) in
    (
      d,
      ap (λ o. o >>= (λ y. add_all alloc y fields)) r ∙ q,
      x,
      omega (arith, l),
      g
          ∙ ap (λ k. k ++ encode_all fields) e
          ∙ append_assoc (contents b) (encode f) (encode_all fields),
    )
