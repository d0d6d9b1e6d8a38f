-- ===== src/HeapBuffer.antt =====
-- Lacewing/src/heapbuffer.c: the growing byte buffer. `none` is the null pointer.
pub mod Inv
pub mod Refine
use bluewing_cpp_server.Prelude.{
  ℕ, zero, suc, ◌+◌, ◌-◌, ◌*◌, ◌%◌, ◌^◌, Bool, true, false, Option, none, some, [], ◌++◌, ltb, ◌==◌,
  if◌then◌else◌, Bytes, length, take, drop,
}
use bluewing_cpp_server.CLib.{cstr}

-- `struct _lwp_heapbuffer`; `buffer` holds the bytes that have been written to it.
pub record HeapBuffer : Type 0 where
  pub allocated : ℕ
  pub length : ℕ
  pub offset : ℕ
  pub buffer : Bytes

abbrev pub size_mod : ℕ
size_mod = 2 ^ 64

-- `size_t` arithmetic wraps.
abbrev pub size_add : ℕ → ℕ → ℕ
size_add a b = (a + b) % size_mod

abbrev pub size_sub : ℕ → ℕ → ℕ
size_sub a b = (a + size_mod - b) % size_mod

-- memcpy (buffer + at, bytes, length (bytes))
abbrev pub write_at : Bytes → ℕ → Bytes → Bytes
write_at buffer at bytes = take at buffer ++ (bytes ++ drop (at + length bytes) buffer)

-- `while (new_length > allocated) allocated *= 3;`, by fuel
unfoldable pub grow : ℕ → ℕ → ℕ → ℕ
grow zero new_length allocated = allocated
grow (suc fuel) new_length allocated =
    let larger = grow fuel new_length (allocated * 3 % size_mod) in
    if ltb allocated new_length then larger else allocated

unfoldable pub free : Option HeapBuffer → Option HeapBuffer
free ctx = none

-- The room that `lwp_heapbuffer_add` makes: `alloc` says whether an allocation of a size succeeds.
unfoldable pub reserve : (ℕ → Bool) → Option HeapBuffer → ℕ → Option HeapBuffer
reserve alloc none n =
    let init_alloc = n * 3 % size_mod in
    if alloc init_alloc
    then some (record { allocated = init_alloc; length = 0; offset = 0; buffer = [] })
    else none
reserve alloc (some hb) n =
    let new_length = size_add hb.length n in
    let larger = grow new_length new_length hb.allocated in
    if ltb hb.allocated new_length
    then if alloc larger then some (record hb { allocated = larger }) else none
    else some hb

unfoldable pub append : Option HeapBuffer → Bytes → Option HeapBuffer × Bool
append none bytes = (none, false)
append (some hb) bytes = (
  some (record hb {
    length = size_add hb.length (length bytes);
    buffer = write_at hb.buffer hb.length bytes;
  }),
  true,
)

-- `(size_t) -1` stands for the length of the C string.
unfoldable pub add : (ℕ → Bool) → Option HeapBuffer → Bytes → ℕ → Option HeapBuffer × Bool
add alloc ctx buffer n =
    let bytes = if n == size_mod - 1 then cstr buffer else take n buffer in
    if length bytes == 0 then (ctx, true) else append (reserve alloc ctx (length bytes)) bytes

-- `none` is a failed `lwp_format`.
unfoldable pub addf : (ℕ → Bool) → Option HeapBuffer → Option Bytes → Option HeapBuffer
addf alloc ctx none = ctx
addf alloc ctx (some formatted) =
    if ltb 0 (length formatted) then (add alloc ctx formatted (length formatted)).0 else ctx

unfoldable pub reset : Option HeapBuffer → Option HeapBuffer
reset none = none
reset (some hb) = some (record hb { length = 0; offset = 0 })

unfoldable pub pending : Option HeapBuffer → ℕ
pending none = 0
pending (some hb) = size_sub hb.length hb.offset

-- The memory from `lwp_heapbuffer_buffer` on; `none` is the null pointer.
unfoldable pub buffer : Option HeapBuffer → Option Bytes
buffer none = none
buffer (some hb) = some (drop hb.offset hb.buffer)

unfoldable pub trim_left : Option HeapBuffer → ℕ → Option HeapBuffer
trim_left none n = none
trim_left (some hb) n = some (record hb { offset = size_add hb.offset n })

unfoldable pub trim_right : Option HeapBuffer → ℕ → Option HeapBuffer
trim_right none n = none
trim_right (some hb) n = some (record hb { length = size_sub hb.length n })
