-- ===== src/FrameReader.antt =====
-- Lacewing/FrameReader.h: the relay protocol's frames, a type, a size and a message, read from
-- whatever pieces the stream hands over. `buffer` is the message builder's bytes.
pub mod Feed
pub mod Header
pub mod Process
pub mod Frames
pub mod RoundTrip
use bluewing_cpp_server.Prelude.{
  ℕ, zero, suc, ◌+◌, ◌-◌, ◌*◌, ◌^◌, Bool, true, false, ◌&&◌, List, [], ◌∷◌, ◌++◌, ltb, ◌==◌,
  if◌then◌else◌, Bytes, length, take, drop, min,
}

-- `framereader`: the state is 0 before the type, 1 before the size and 3 before the message.
pub record Reader : Type 0 where
  pub state : ℕ
  pub sizebytesleft : ℕ
  pub messagesize : ℕ
  pub messagetype : ℕ
  pub buffer : Bytes

abbrev pub little_endian : Bytes → ℕ
little_endian [] = 0
little_endian (b ∷ bytes) = b + 256 * little_endian bytes

-- `*(lw_i16 *)` is signed, and `messagesize` takes it as a `lw_ui32`.
abbrev pub from_i16 : ℕ → ℕ
from_i16 n = if ltb n (2 ^ 15) then n else n + 2 ^ 32 - 2 ^ 16

-- The switch over `buffer.size`.
unfoldable pub size_in : Bytes → ℕ → ℕ
size_in bytes old =
    if length bytes == 2
    then from_i16 (little_endian bytes)
    else if length bytes == 4
    then little_endian bytes
    else old

-- One byte of the loop, while the state is below 3.
unfoldable pub header_step : Reader → ℕ → Reader
header_step r byte =
    if r.state == 0
    then record r { messagetype = byte; state = 1; sizebytesleft = 0 }
    else if ltb 0 r.sizebytesleft
    then (let held = r.buffer ++ byte ∷ [] in
        if r.sizebytesleft == 1
        then record r {
          sizebytesleft = 0;
          messagesize = size_in held r.messagesize;
          buffer = [];
          state = 3;
        }
        else record r { sizebytesleft = r.sizebytesleft - 1; buffer = held })
    else if byte == 254
    then record r { sizebytesleft = 2 }
    else if byte == 255
    then record r { sizebytesleft = 4 }
    else record r { messagesize = byte; state = 3 }

-- The loop over the header, and the data behind it.
unfoldable pub header : Reader → Bytes → Reader × Bytes
header r [] = (r, [])
header r (byte ∷ input) =
    if ltb r.state 3 then header (header_step r byte) input else (r, byte ∷ input)

-- `messagehandler`, on what its tag points to: whether to go on.
abbrev pub MessageHandler : Type 0 → Type 0
MessageHandler S = S → ℕ → Bytes → S × Bool

-- `messagesize - buffer.size`, which wraps at 2 ^ 32 where the buffer holds more.
unfoldable pub lacking : Reader → ℕ
lacking r =
    if ltb r.messagesize (length r.buffer)
    then r.messagesize + 2 ^ 32 - length r.buffer
    else r.messagesize - length r.buffer

module _ {S : Type 0} (messagehandler : MessageHandler S) where
  -- A message that is complete in the data, and what is read behind it.
  unfoldable pub whole_message : S → Reader → Bytes → (S → Reader → S × Reader) → S × Reader
  whole_message s r message go_on =
      let (s', ok) = messagehandler s r.messagetype message in
      if ok then go_on s' (record r { state = 0 }) else (s', r)

  -- A message of which the end may be missing.
  unfoldable pub part_message : S → Reader → Bytes → (S → Reader → Bytes → S × Reader) → S × Reader
  unfolding lacking
  part_message s r input go_on =
      let n = min (lacking r) (length input) in
      let held = r.buffer ++ take n input in
      let (s', ok) = messagehandler s r.messagetype held in
      let next = go_on s' (record r { state = 0; buffer = [] }) (drop n input) in
      if length held == r.messagesize
      then (if ok then next else (s', record r { buffer = held ++ 0 ∷ [] }))
      else (s, record r { buffer = held })

  -- The part of `process` behind the loop.
  unfoldable pub body : S → Reader → Bytes → (S → Reader → Bytes → S × Reader) → S × Reader
  body s r input go_on =
      if ltb r.state 3
      then (s, r)
      else if length r.buffer == 0 && length input == r.messagesize
      then whole_message s r input (λ s' r'. (s', r'))
      else if length r.buffer == 0 && ltb r.messagesize (length input)
      then whole_message s r (take r.messagesize input)
          (λ s' r'. go_on s' r' (drop r.messagesize input))
      else part_message s r input go_on

  -- By fuel; a call without data only comes behind a message that ends with them.
  unfoldable pub process : ℕ → S → Reader → Bytes → S × Reader
  process zero s r input = (s, r)
  process (suc fuel) s r input =
      let (r', input') = header r input in
      body s r' input' (λ s' r'' input''. process fuel s' r'' input'')
