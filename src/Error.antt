-- ===== src/Error.antt =====
-- Lacewing/src/error.c: an error's text is written backwards from the end of a fixed buffer.
pub mod Laws
use bluewing_cpp_server.Prelude.{
  ℕ, ◌+◌, ◌-◌, [], ◌∷◌, ◌++◌, ltb, ◌==◌, if◌then◌else◌, Bytes, codes, length, take,
}

abbrev pub buffer_size : ℕ
buffer_size = 4096

-- `struct _lw_error`: `text` is what stands from `begin` up to the terminator.
pub record LwError : Type 0 where
  pub text : Bytes
  pub size : ℕ

-- ctx->begin - ctx->buffer
abbrev pub begin : LwError → ℕ
begin e = buffer_size - 1 - length e.text

unfoldable pub new : LwError
new = record { text = []; size = 0 }

-- lwp_error_add
unfoldable pub prepend : LwError → Bytes → LwError
prepend e buffer = if ltb (begin e) (length buffer) then e else record e { text = buffer ++ e.text }

abbrev pub separator : Bytes
separator = codes " - "

unfoldable pub separate : LwError → LwError
separate e = if length e.text == 0 then e else prepend e separator

-- `formatted` is what the format gives; `vsnprintf` cuts it to the size of the buffer.
unfoldable pub addv : LwError → Bytes → LwError
addv e formatted =
    prepend (separate (record e { size = e.size + 1 })) (take (buffer_size - 1) formatted)
