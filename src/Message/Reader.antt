-- ===== src/Message/Reader.antt =====
-- messagereader, on the memory from `buffer` on.
use bluewing_cpp_server.Prelude.{
  ℕ, ◌+◌, ◌-◌, ◌%◌, ◌^◌, Bool, true, false, not, ◌&&◌, List, [], ◌∷◌, ltb, ◌==◌, if◌then◌else◌,
  Bytes, length, take, drop,
}
use bluewing_cpp_server.CLib.{cstr}
use bluewing_cpp_server.FrameReader.{little_endian}
use bluewing_cpp_server.Message.{Field, number, text}

pub record Reader : Type 0 where
  pub buffer : Bytes
  pub size : ℕ
  pub offset : ℕ
  pub failed : Bool

unfoldable pub new : Bytes → ℕ → Reader
new buffer size = record { buffer = buffer; size = size; offset = 0; failed = false }

-- messagereader::check, in size_t
unfoldable pub check : Reader → ℕ → Bool × Reader
check r n =
    if r.failed
    then (false, r)
    else if ltb r.size ((r.offset + n) % 2 ^ 64)
    then (false, record r { failed = true })
    else (true, r)

-- get <t> of an integer type of this size
unfoldable pub get : ℕ → Reader → ℕ × Reader
unfolding check
get width r =
    let (ok, s) = check r width in
    if not ok then (0, s) else (
      little_endian (take width (drop s.offset s.buffer)),
      record s { offset = s.offset + width },
    )

-- get of a number of bytes
unfoldable pub get_bytes : ℕ → Reader → Bytes × Reader
unfolding check
get_bytes n r =
    let (ok, s) = check r n in
    if not ok
    then ([], s)
    else (take n (drop s.offset s.buffer), record s { offset = s.offset + n })

unfoldable pub bytesleft : Reader → ℕ
bytesleft r = (r.size + 2 ^ 64 - r.offset) % 2 ^ 64

abbrev pub starts_empty : Bytes → Bool
starts_empty [] = true
starts_empty (c ∷ cs) = c == 0

-- getremaining; on a reader that has failed it is what stands in front of the first NUL.
unfoldable pub getremaining : Bool → Reader → Bytes × Reader
unfolding bytesleft
getremaining allowempty r =
    let remaining = take (bytesleft r) (drop r.offset r.buffer) in
    let s = record r { offset = r.offset + length remaining } in
    let t = if not allowempty && starts_empty remaining then record s { failed = true } else s in
    if r.failed then (cstr r.buffer, r) else (remaining, t)

-- The calls of `get` that read fields of these types and sizes.
unfoldable pub read_field : Field → Reader → Field × Reader
unfolding get get_bytes
read_field (number width value) r = let (v, s) = get width r in (number width v, s)
read_field (text bytes) r = let (b, s) = get_bytes (length bytes) r in (text b, s)

unfoldable pub read_all : List Field → Reader → List Field × Reader
unfolding read_field
read_all [] r = ([], r)
read_all (f ∷ fields) r =
    let (g, s) = read_field f r in let (rest, t) = read_all fields s in (g ∷ rest, t)
