-- ===== src/Tests/Buffers.antt =====
-- heapbuffer.c.
use bluewing_cpp_server.Prelude.{ℕ, Bool, true, false, none, some, ◌≡◌, refl, arith, codes, leb}
use bluewing_cpp_server.HeapBuffer.{HeapBuffer, add, reserve, append, grow}
use bluewing_cpp_server.HeapBuffer.Inv.{IsSound, IsValid, add-IsValid}
use bluewing_cpp_server.HeapBuffer.Refine.{contents, add-contents}

-- "ello", after "H" has been taken off.
abbrev hello : HeapBuffer
hello = record { allocated = 9; length = 5; offset = 1; buffer = codes "Hello" }

hello-IsSound : IsSound hello
hello-IsSound = record {
  written = omega arith;
  held = omega arith;
  started = omega arith;
  positive = omega arith;
  word = omega arith;
}

abbrev up_to_20 : ℕ → Bool
up_to_20 n = leb n 20

add_no_memory : add up_to_20 (some hello) (codes ", world and all") 15 ≡ (none, false)
unfolding add reserve append grow
add_no_memory = refl

add_grows : (add (λ n. true) (some hello) (codes ", world") 7).1 ≡ true
unfolding add reserve append grow
add_grows = refl

add-IsValid_example : IsValid (add up_to_20 (some hello) (codes ", world") 7).0
add-IsValid_example =
    add-IsValid up_to_20 (some hello) (codes ", world") 7 hello-IsSound (omega arith) refl

add-contents_example :
    contents (add (λ n. true) (some hello) (codes ", world") 7).0 ≡ codes "ello, world"
add-contents_example =
    add-contents (λ n. true) (some hello) (codes ", world") 7 hello-IsSound (omega arith) refl
      add_grows
