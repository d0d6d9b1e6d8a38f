-- ===== src/FrameReader/Feed.antt =====
-- The frame reader against one that takes its input byte by byte.
use bluewing_cpp_server.Prelude.{
  ℕ, ◌+◌, ◌<◌, Bool, true, false, not, ◌&&◌, [], ◌∷◌, ◌++◌, ◌≡◌, inl, inr, refl, arith, Bool-cases,
  ltb, ◌==◌, if◌then◌else◌, Bytes, length, length-append, append_assoc, append-nil,
}
use bluewing_cpp_server.FrameReader.{Reader, header_step, header, MessageHandler}

-- A message is complete.
unfoldable pub is_complete : Reader → Bool
is_complete r = not (ltb r.state 3) && length r.buffer == r.messagesize

pub header_done : (r : Reader) (input : Bytes) → ltb r.state 3 ≡ false → header r input ≡ (r, input)
unfolding header
header_done r [] h = refl
header_done r (byte ∷ input) h = rw h

pub header_below :
    (r : Reader) (byte : ℕ) (input : Bytes)
    → ltb r.state 3 ≡ true
    → header r (byte ∷ input) ≡ header (header_step r byte) input
unfolding header
header_below r byte input h = rw h

complete_state : (r : Reader) → is_complete r ≡ true → ltb r.state 3 ≡ false
unfolding is_complete
complete_state r h = ground (arith, h)

module _ {S : Type 0} (messagehandler : MessageHandler S) where
  -- A complete message is handed over, and the reader is at the next frame.
  unfoldable pub settle : S → Reader → S × Reader
  settle s r =
      if is_complete r
      then ((messagehandler s r.messagetype r.buffer).0, record r { state = 0; buffer = [] })
      else (s, r)

  -- One byte.
  unfoldable pub feed : S → Reader → ℕ → S × Reader
  feed s r byte =
      settle s
        (if ltb r.state 3 then header_step r byte else record r { buffer = r.buffer ++ byte ∷ [] })

  -- All bytes, one by one.
  unfoldable pub feed_all : S → Reader → Bytes → S × Reader
  feed_all s r [] = (s, r)
  feed_all s r (byte ∷ input) = let (s', r') = feed s r byte in feed_all s' r' input

  pub settle_open : (s : S) (r : Reader) → is_complete r ≡ false → settle s r ≡ (s, r)
  unfolding settle
  settle_open s r h = rw h

  abbrev pub fed : S × Reader → Bytes → S × Reader
  fed (s, r) input = feed_all s r input

  feed_all-below :
      (s : S) (r : Reader) (byte : ℕ) (input : Bytes)
      → ltb r.state 3 ≡ true
      → feed_all s r (byte ∷ input) ≡ fed (settle s (header_step r byte)) input
  unfolding feed_all feed
  feed_all-below s r byte input h = rw h

  -- The header loop takes the bytes of the header.
  pub feed-header :
      (s : S) (r : Reader) (input : Bytes)
      → is_complete r ≡ false
      → feed_all s r input ≡ fed (settle s (header r input).0) (header r input).1
  feed-header s r [] h = unfold header in rw (settle_open s r h)
  feed-header s r (byte ∷ input) h = elim (Bool-cases (ltb r.state 3)) [
    | inr three ↦ rw (header_done r (byte ∷ input) three, settle_open s r h)
    | inl below ↦
        rw (header_below r byte input below, feed_all-below s r byte input below)
          (elim (Bool-cases (is_complete (header_step r byte))) [
            | inl whole ↦
                rw (
                  header_done (header_step r byte) input
                    (complete_state (header_step r byte) whole))
            | inr part ↦
                rw (settle_open s (header_step r byte) part)
                  (feed-header s (header_step r byte) input part)
          ])
  ]

  -- Bytes of a message that do not end it are kept.
  pub feed-part :
      (s : S) (r : Reader) (input : Bytes)
      → ltb r.state 3 ≡ false
      → length r.buffer + length input < r.messagesize
      → feed_all s r input ≡ (s, record r { buffer = r.buffer ++ input })
  unfolding feed_all feed settle is_complete
  feed-part s r [] three h = rw append-nil
  feed-part s r (byte ∷ input) three h = ground (
    arith,
    three,
    append_assoc r.buffer (byte ∷ []) input,
    length-append r.buffer (byte ∷ []),
    feed-part s (record r { buffer = r.buffer ++ byte ∷ [] }) input,
  )

  -- The bytes of a message up to its last one, which hands it over.
  pub feed-end :
      (s : S) (r : Reader) (input behind : Bytes)
      → ltb r.state 3 ≡ false
      → 0 < length input
      → length r.buffer + length input ≡ r.messagesize
      → feed_all s r (input ++ behind)
        ≡ feed_all
            (messagehandler s r.messagetype (r.buffer ++ input)).0
            (record r { state = 0; buffer = [] })
            behind
  unfolding feed_all feed settle is_complete
  feed-end s r [] behind three p h = absurd (omega arith)
  feed-end s r (byte ∷ []) behind three p h =
      ground (arith, three, length-append r.buffer (byte ∷ []))
  feed-end s r (byte ∷ next ∷ input) behind three p h = ground (
    arith,
    three,
    append_assoc r.buffer (byte ∷ []) (next ∷ input),
    length-append r.buffer (byte ∷ []),
    feed-end s (record r { buffer = r.buffer ++ byte ∷ [] }) (next ∷ input) behind,
  )
