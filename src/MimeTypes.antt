-- ===== src/MimeTypes.antt =====
-- Lacewing/src/webserver/mimetypes.c: the MIME type that belongs to a file name's extension.
mod Table
pub mod Laws
use bluewing_cpp_server.Prelude.{
  ℕ, Bool, true, false, Option, none, some, List, [], ◌∷◌, ◌++◌, ◌==◌, if◌then◌else◌, Bytes, codes,
}
use bluewing_cpp_server.CLib.{strcaseeq}
use Table.{mimetypes_head, mimetypes_tail}

-- The table of the source, in its order.
unfoldable pub mimetypes : List (Bytes × Bytes)
unfolding mimetypes_head mimetypes_tail
mimetypes = mimetypes_head ++ mimetypes_tail

abbrev or_else : Option Bytes → Option Bytes → Option Bytes
or_else (some e) o = some e
or_else none o = o

-- `strrchr (filename, c)`, one character further on: what stands behind the last `c`.
unfoldable pub after_last : ℕ → Bytes → Option Bytes
after_last c [] = none
after_last c (b ∷ s) = or_else (after_last c s) (if b == c then some s else none)

-- The loop over the table.
unfoldable pub find_type : List (Bytes × Bytes) → Bytes → Bytes
find_type [] extension = codes "application/octet-stream"
find_type ((name, type) ∷ rest) extension =
    if strcaseeq name extension then type else find_type rest extension

-- A name without a dot is looked up whole.
abbrev pub extension_of : Bytes → Option Bytes → Bytes
extension_of filename none = filename
extension_of filename (some extension) = extension

unfoldable pub guess_mimetype : Bytes → Bytes
guess_mimetype [] = codes "application/octet-stream"
guess_mimetype (b ∷ s) = find_type mimetypes (extension_of (b ∷ s) (after_last b'.' (b ∷ s)))
