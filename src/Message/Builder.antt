-- ===== src/Message/Builder.antt =====
-- messagebuilder. `buffer` holds the bytes that have been written to the allocation.
use bluewing_cpp_server.Prelude.{
  ℕ, ◌+◌, ◌*◌, ◌%◌, ◌^◌, Bool, Option, none, some, List, [], ◌∷◌, ltb, ◌==◌, if◌then◌else◌, ◌>>=◌,
  Bytes, length,
}
use bluewing_cpp_server.CLib.{cstr}
use bluewing_cpp_server.HeapBuffer.{write_at}
use bluewing_cpp_server.Message.{Field, encode}

pub record Builder : Type 0 where
  pub allocated : ℕ
  pub size : ℕ
  pub buffer : Bytes

unfoldable pub new : Builder
new = record { allocated = 0; size = 0; buffer = [] }

-- lw_ui32 arithmetic
abbrev pub ui32 : ℕ → ℕ
ui32 n = n % 2 ^ 32

-- The new size of an allocation that does not have room for so many more bytes.
unfoldable pub grown : Builder → ℕ → ℕ
grown b n =
    let larger = if b.allocated == 0 then 4096 else ui32 (b.allocated * 3) in
    if ltb larger (ui32 (b.size + n)) then ui32 (larger + n) else larger

unfoldable pub put : Builder → Bytes → Builder
put b bytes = record b {
  buffer = write_at b.buffer b.size bytes;
  size = ui32 (b.size + ui32 (length bytes));
}

-- messagebuilder::add of memory; `alloc` says which sizes are allocated, `none` is the exception.
unfoldable pub add : (ℕ → Bool) → Builder → Bytes → Option Builder
add alloc b bytes =
    let n = ui32 (length bytes) in
    let larger = grown b n in
    if ltb b.allocated (ui32 (b.size + n))
    then if alloc larger then some (put (record b { allocated = larger }) bytes) else none
    else some (put b bytes)

-- messagebuilder::add of a C string, with a size of -1
unfoldable pub add_string : (ℕ → Bool) → Builder → Bytes → Option Builder
add_string alloc b string = add alloc b (cstr string)

-- The calls of `add` for these fields.
unfoldable pub add_all : (ℕ → Bool) → Builder → List Field → Option Builder
add_all alloc b [] = some b
add_all alloc b (f ∷ fields) = add alloc b (encode f) >>= (λ c. add_all alloc c fields)

unfoldable pub reset : Builder → Builder
reset b = record b { size = 0 }
