-- ===== src/Message.antt =====
-- Lacewing/MessageBuilder.h and Lacewing/MessageReader.h: what goes into a message of the relay
-- protocol, and how it is taken out again. Numbers stand in little-endian order.
pub mod Builder
pub mod Reader
pub mod Grow
pub mod RoundTrip
use bluewing_cpp_server.Prelude.{
  ℕ, zero, suc, ◌+◌, ◌-◌, ◌*◌, ◌/◌, ◌%◌, ◌^◌, ◌≡◌, List, [], ◌∷◌, ◌++◌, Bytes, length,
}

-- A number of so many bytes, or text.
pub data Field : Type 0 where
  number : ℕ → ℕ → Field
  text : Bytes → Field

-- The memory of an integer of this width.
unfoldable pub bytes_of : ℕ → ℕ → Bytes
bytes_of zero value = []
bytes_of (suc width) value = value % 256 ∷ bytes_of width (value / 256)

unfoldable pub encode : Field → Bytes
unfolding bytes_of
encode (number width value) = bytes_of width value
encode (text bytes) = bytes

unfoldable pub encode_all : List Field → Bytes
unfolding encode
encode_all [] = []
encode_all (f ∷ fields) = encode f ++ encode_all fields
