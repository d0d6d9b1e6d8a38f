-- ===== src/FrameReader/RoundTrip.antt =====
-- The messages of frames come out of the reader.
use bluewing_cpp_server.Prelude.{
  ℕ, ◌+◌, ◌*◌, ◌/◌, ◌%◌, ◌^◌, ◌<◌, ◌≤◌, true, false, List, [], ◌∷◌, ◌++◌, ◌≡◌, ◌⊎◌, inl, inr, ◌∙◌,
  refl, arith, Bool-cases, ltb, ◌==◌, Bytes, All, length,
}
use bluewing_cpp_server.FrameReader.{
  Reader, header_step, MessageHandler, process, size_in, from_i16,
}
use bluewing_cpp_server.FrameReader.Feed.{is_complete, settle, feed, feed_all, fed}
use bluewing_cpp_server.FrameReader.Process.{IsAccepting, process-feed_all, fed-exact, fed-part}
use bluewing_cpp_server.FrameReader.Frames.{frame}

-- A reader between two frames.
abbrev pub at_frame : ℕ → ℕ → ℕ → Reader
at_frame left size type = record {
  state = 0;
  sizebytesleft = left;
  messagesize = size;
  messagetype = type;
  buffer = [];
}

abbrev in_message : ℕ → ℕ → Reader
in_message size type = record {
  state = 3;
  sizebytesleft = 0;
  messagesize = size;
  messagetype = type;
  buffer = [];
}

-- The sizes that the reader reads as the builder writes them.
abbrev pub IsReadable : Bytes → Type 0
IsReadable message =
    (length message < 2 ^ 15) ⊎ ((65535 ≤ length message) × (length message < 2 ^ 31))

abbrev pub frames : List (ℕ × Bytes) → Bytes
frames [] = []
frames ((type, message) ∷ rest) = frame type message ++ frames rest

pub length-frame : (type : ℕ) (message : Bytes) → length (frame type message) ≤ length message + 6
unfolding frame
length-frame type message = ground arith

module _ {S : Type 0} (messagehandler : MessageHandler S) where
  header_8 :
      (s : S) (left size t type n : ℕ) (input : Bytes)
      → n < 254
      → feed_all messagehandler s (at_frame left size t) (type ∷ n ∷ input)
        ≡ fed messagehandler (settle messagehandler s (in_message n type)) input
  unfolding feed_all feed header_step settle is_complete
  header_8 s left size t type n input h =
      let not_two : (n == 254) ≡ false = ground arith in
      let not_four : (n == 255) ≡ false = ground arith in rw (not_two, not_four)

  header_16 :
      (s : S) (left size t type a b : ℕ) (input : Bytes)
      → feed_all messagehandler s (at_frame left size t) (type ∷ 254 ∷ a ∷ b ∷ input)
        ≡ fed messagehandler
            (settle messagehandler s (in_message (from_i16 (a + 256 * (b + 256 * 0))) type))
            input
  unfolding feed_all feed header_step settle is_complete size_in
  header_16 s left size t type a b input = refl

  header_32 :
      (s : S) (left size t type a b c d : ℕ) (input : Bytes)
      → feed_all messagehandler s (at_frame left size t) (type ∷ 255 ∷ a ∷ b ∷ c ∷ d ∷ input)
        ≡ fed messagehandler
            (settle messagehandler s
              (in_message (a + 256 * (b + 256 * (c + 256 * (d + 256 * 0)))) type))
            input
  unfolding feed_all feed header_step settle is_complete size_in
  header_32 s left size t type a b c d input = refl

  message-fed :
      (s : S) (type n : ℕ) (message behind : Bytes)
      → n ≡ length message
      → fed messagehandler (settle messagehandler s (in_message n type)) (message ++ behind)
        ≡ feed_all messagehandler
            (messagehandler s type message).0
            (at_frame 0 (length message) type)
            behind
  message-fed s type n message behind e = rw e (
      fed-exact messagehandler s (in_message (length message) type) message behind refl
        (omega arith))

  feed_all-frame :
      (s : S) (left size t type : ℕ) (message behind : Bytes)
      → IsReadable message
      → feed_all messagehandler s (at_frame left size t) (frame type message ++ behind)
        ≡ feed_all messagehandler
            (messagehandler s type message).0
            (at_frame 0 (length message) type)
            behind
  unfolding frame
  feed_all-frame s left size t type message behind (inl h) =
      elim (Bool-cases (ltb (length message) 254)) [
        | inl small ↦ rw small (
            header_8 s left size t type (length message) (message ++ behind) (ground (arith, small))
            ∙ message-fed s type (length message) message behind refl)
        | inr large ↦
            let two : ltb (length message) 65535 ≡ true = ground arith in
            let n = length message in
            let plain : from_i16 (n % 256 + 256 * (n / 256 + 256 * 0)) ≡ n = ground (arith, h) in
            rw (large, two)
              (header_16 s left size t type (n % 256) (n / 256) (message ++ behind)
                ∙ message-fed s type _ message behind plain)
      ]
  feed_all-frame s left size t type message behind (inr (h, k)) =
      let large : ltb (length message) 254 ≡ false = ground arith in
      let two : ltb (length message) 65535 ≡ false = ground arith in
      let n = length message in
      let plain : n % 256
            + 256 * (n / 256 % 256 + 256 * (n / 65536 % 256 + 256 * (n / 16777216 + 256 * 0)))
          ≡ n =
        omega arith in
      rw (large, two)
        (header_32 s left size t type (n % 256) (n / 256 % 256) (n / 65536 % 256) (n / 16777216)
            (message ++ behind)
          ∙ message-fed s type _ message behind plain)

  -- The handler run on the messages, one after the other.
  abbrev pub hand_over : S → List (ℕ × Bytes) → S
  hand_over s [] = s
  hand_over s ((type, message) ∷ rest) = hand_over (messagehandler s type message).0 rest

  feed_all-frames :
      (s : S) (left size t : ℕ) (messages : List (ℕ × Bytes))
      → All (λ m. IsReadable m.1) messages
      → (feed_all messagehandler s (at_frame left size t) (frames messages)).0
        ≡ hand_over s messages
  feed_all-frames s left size t [] h = unfold feed_all in refl
  feed_all-frames s left size t ((type, message) ∷ rest) (h, hs) =
      rw (feed_all-frame s left size t type message (frames rest) h)
        (feed_all-frames (messagehandler s type message).0 0 (length message) type rest hs)

  -- Between two frames, the frames of messages that have less than 2 ^ 15 bytes, or at least 65535
  -- and less than 2 ^ 31, are handed over as these messages in their order, with a handler that
  -- always asks to go on and fuel for one more than their bytes.
  pub process-frames :
      (fuel : ℕ) (s : S) (left size t : ℕ) (messages : List (ℕ × Bytes))
      → IsAccepting messagehandler
      → All (λ m. IsReadable m.1) messages
      → length (frames messages) < fuel
      → (process messagehandler fuel s (at_frame left size t) (frames messages)).0
        ≡ hand_over s messages
  process-frames fuel s left size t messages accepts h f =
      rw
        (process-feed_all messagehandler accepts fuel s (at_frame left size t) (frames messages)
          (inl (refl, inl refl)) f)
        (feed_all-frames s left size t messages h)

  -- The frame of a message of at least 2 ^ 15 and less than 65535 bytes is read without handing the
  -- message over, with a handler that always asks to go on and fuel for one more than its bytes:
  -- the sign of the 16-bit size makes the reader wait for a longer message.
  pub process-frame_lost :
      (fuel : ℕ) (s : S) (left size t type : ℕ) (message : Bytes)
      → IsAccepting messagehandler
      → 2 ^ 15 ≤ length message
      → length message < 65535
      → length (frame type message) < fuel
      → (process messagehandler fuel s (at_frame left size t) (frame type message)).0 ≡ s
  process-frame_lost fuel s left size t type message accepts h k f =
      let n = length message in
      let large : ltb n 254 ≡ false = ground arith in
      let two : ltb n 65535 ≡ true = ground arith in
      let huge : n < from_i16 (n % 256 + 256 * (n / 256 + 256 * 0)) = ground (arith, h) in
      let bytes : frame type message ≡ type ∷ 254 ∷ n % 256 ∷ n / 256 ∷ message =
        unfold frame in rw (large, two) in
      rw (
        process-feed_all messagehandler accepts fuel s (at_frame left size t) (frame type message)
            (inl (refl, inl refl)) f,
        bytes,
        header_16 s left size t type (n % 256) (n / 256) message,
        fed-part messagehandler s (in_message (from_i16 (n % 256 + 256 * (n / 256 + 256 * 0))) type)
            message refl (omega (arith, huge)),
      )
