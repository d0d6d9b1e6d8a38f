-- ===== src/FrameReader/Frames.antt =====
-- Lacewing/FrameBuilder.h, `preparefortransmission`: the frame of a message, and what the reader
-- makes of it, in one piece or in several.
use bluewing_cpp_server.Prelude.{
  ℕ, ◌/◌, ◌%◌, ◌<◌, ◌≤◌, true, false, [], ◌∷◌, ◌++◌, ◌≡◌, ◌≢◌, ◌⊎◌, inl, inr, refl, arith,
  Bool-cases, ltb, ◌==◌, if◌then◌else◌, Bytes, length, length-append,
}
use bluewing_cpp_server.FrameReader.{Reader, header_step, MessageHandler, process}
use bluewing_cpp_server.FrameReader.Feed.{is_complete, settle, feed, feed_all, fed}
use bluewing_cpp_server.FrameReader.Header.{IsOpen, Found, header_step-Found}
use bluewing_cpp_server.FrameReader.Process.{IsAccepting, process-feed_all}

-- A type of one byte, the size in one, three or five bytes, and a message of less than 2 ^ 31 bytes,
-- the range of `messagesize`.
unfoldable pub frame : ℕ → Bytes → Bytes
frame type message =
    let n = length message in
    if ltb n 254
    then type ∷ n ∷ message
    else if ltb n 65535
    then type ∷ 254 ∷ n % 256 ∷ n / 256 ∷ message
    else type ∷ 255 ∷ n % 256 ∷ n / 256 % 256 ∷ n / 65536 % 256 ∷ n / 16777216 ∷ message

found :
    (r : Reader)
    → Found r
    → ((ltb r.state 3 ≡ true) × ((r.buffer ≡ []) ⊎ ((r.state ≢ 0) × (0 < r.sizebytesleft))))
      ⊎ ((ltb r.state 3 ≡ false) × (length r.buffer ≤ r.messagesize))
found r (inl f) = inl f
found r (inr (three, inl e)) = inr (three, rw e (omega arith))
found r (inr (three, inr k)) = inr (three, omega arith)

module _ {S : Type 0} (messagehandler : MessageHandler S) where
  settle-IsOpen :
      (s : S) (r : Reader)
      → ((ltb r.state 3 ≡ true) × ((r.buffer ≡ []) ⊎ ((r.state ≢ 0) × (0 < r.sizebytesleft))))
        ⊎ ((ltb r.state 3 ≡ false) × (length r.buffer ≤ r.messagesize))
      → IsOpen (settle messagehandler s r).1
  unfolding settle is_complete
  settle-IsOpen s r (inl (below, k)) = rw below (inl (below, k))
  settle-IsOpen s r (inr (three, k)) = elim (Bool-cases (length r.buffer == r.messagesize)) [
    | inl whole ↦ rw (three, whole) (inl (refl, inl refl))
    | inr part ↦ rw (three, part) (inr (three, ground (arith, part)))
  ]

  feed-IsOpen : (s : S) (r : Reader) (byte : ℕ) → IsOpen r → IsOpen (feed messagehandler s r byte).1
  unfolding feed
  feed-IsOpen s r byte (inl (below, k)) = rw below (
      settle-IsOpen s (header_step r byte)
        (found (header_step r byte) (header_step-Found r byte below k)))
  feed-IsOpen s r byte (inr (three, k)) = rw three (
      settle-IsOpen s (record r { buffer = r.buffer ++ byte ∷ [] })
        (inr (three, omega (arith, length-append r.buffer (byte ∷ [])))))

  feed_all-append :
      (s : S) (r : Reader) (a b : Bytes)
      → feed_all messagehandler s r (a ++ b) ≡ fed messagehandler (feed_all messagehandler s r a) b
  unfolding feed_all
  feed_all-append s r [] b = refl
  feed_all-append s r (byte ∷ a) b =
      let (s', r') = feed messagehandler s r byte in feed_all-append s' r' a b

  feed_all-IsOpen :
      (s : S) (r : Reader) (a : Bytes) → IsOpen r → IsOpen (feed_all messagehandler s r a).1
  unfolding feed_all
  feed_all-IsOpen s r [] o = o
  feed_all-IsOpen s r (byte ∷ a) o =
      let (s', r') = feed messagehandler s r byte in
      feed_all-IsOpen s' r' a (feed-IsOpen s r byte o)

  -- With a handler that always asks to go on, an input in two pieces has the effect of the input in
  -- one piece, wherever it is cut, from any state between two calls.
  pub process_pieces :
      (fuel more whole : ℕ) (s : S) (r : Reader) (a b : Bytes)
      → IsAccepting messagehandler
      → IsOpen r
      → length a < fuel
      → length b < more
      → length (a ++ b) < whole
      → (let (s', r') = process messagehandler fuel s r a in process messagehandler more s' r' b)
        ≡ process messagehandler whole s r (a ++ b)
  process_pieces fuel more whole s r a b accepts o f m w =
      rw
        (
          process-feed_all messagehandler accepts fuel s r a o f,
          process-feed_all messagehandler accepts whole s r (a ++ b) o w,
          feed_all-append s r a b,
        )
        (process-feed_all messagehandler accepts more _ _ b (feed_all-IsOpen s r a o) m)
