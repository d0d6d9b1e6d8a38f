-- ===== src/FrameReader/Process.antt =====
-- `process` hands over what the byte-by-byte reader does.
use bluewing_cpp_server.Prelude.{
  ℕ, zero, suc, ◌+◌, ◌-◌, ◌<◌, ◌≤◌, true, false, [], ◌∷◌, ◌++◌, ◌≡◌, ◌≢◌, ◌⊎◌, inl, inr, ◌∙◌, refl,
  sym, ap, arith, Bool-cases, ltb, ◌==◌, Bytes, length, take, drop, min, length-append, length-take,
  length-drop, append-nil, take-append-drop, take_all, nil_of_length,
}
use bluewing_cpp_server.FrameReader.{
  Reader, header_step, header, MessageHandler, whole_message, part_message, lacking, body, process,
}
use bluewing_cpp_server.FrameReader.Feed.{
  is_complete, settle, feed_all, fed, settle_open, feed-header, feed-part, feed-end, header_done,
  header_below,
}
use bluewing_cpp_server.FrameReader.Header.{
  IsOpen, Found, header_nil, header-Found, header_rest, header_shorter,
}

at_most : (bytes : Bytes) (n : ℕ) → (bytes ≡ []) ⊎ (length bytes < n) → length bytes ≤ n
at_most bytes n (inl e) = rw e (omega arith)
at_most bytes n (inr h) = omega arith

ltb-true : (a b : ℕ) → ltb a b ≡ true → a < b
ltb-true a b h = ground (arith, h)

lacking_lem :
    (r : Reader) → length r.buffer ≤ r.messagesize → lacking r ≡ r.messagesize - length r.buffer
unfolding lacking
lacking_lem r h = ground (arith, h)

module _ {S : Type 0} (messagehandler : MessageHandler S) where
  -- The end of a message, also of one without bytes.
  pub fed-exact :
      (s : S) (r : Reader) (input behind : Bytes)
      → ltb r.state 3 ≡ false
      → length r.buffer + length input ≡ r.messagesize
      → fed messagehandler (settle messagehandler s r) (input ++ behind)
        ≡ feed_all messagehandler
            (messagehandler s r.messagetype (r.buffer ++ input)).0
            (record r { state = 0; buffer = [] })
            behind
  fed-exact s r [] behind three e =
      let whole : is_complete r ≡ true = unfold is_complete in ground (arith, three) in
      unfold settle in rw (whole, append-nil)
  fed-exact s r (byte ∷ input) behind three e =
      let part : is_complete r ≡ false = unfold is_complete in ground (arith, three) in
      rw (settle_open messagehandler s r part)
        (feed-end messagehandler s r (byte ∷ input) behind three (omega arith) e)

  pub fed-part :
      (s : S) (r : Reader) (input : Bytes)
      → ltb r.state 3 ≡ false
      → length r.buffer + length input < r.messagesize
      → fed messagehandler (settle messagehandler s r) input
        ≡ (s, record r { buffer = r.buffer ++ input })
  fed-part s r input three e =
      let part : is_complete r ≡ false = unfold is_complete in ground (arith, three) in
      rw (settle_open messagehandler s r part) (feed-part messagehandler s r input three e)

  -- The handler always asks to go on.
  abbrev pub IsAccepting : Type 0
  IsAccepting = (s : S) (t : ℕ) (m : Bytes) → (messagehandler s t m).1 ≡ true

  whole_message-accepted :
      (s : S) (r : Reader) (message : Bytes) (k : S → Reader → S × Reader)
      → IsAccepting
      → r.buffer ≡ []
      → whole_message messagehandler s r message k
        ≡ k
            (messagehandler s r.messagetype (r.buffer ++ message)).0
            (record r { state = 0; buffer = [] })
  unfolding whole_message
  whole_message-accepted s r message k accepts e =
      let joined : r.buffer ++ message ≡ message = rw e in
      let cleared : record r { state = 0 } ≡ record r { state = 0; buffer = [] } =
        ap (λ b. record r { state = 0; buffer = b }) e in
      rw (accepts s r.messagetype message, joined, cleared)

  -- A message and what goes on behind it.
  fed-behind :
      (s : S) (r : Reader) (input : Bytes) (n : ℕ)
      → ltb r.state 3 ≡ false
      → length r.buffer + length (take n input) ≡ r.messagesize
      → fed messagehandler (settle messagehandler s r) input
        ≡ feed_all messagehandler
            (messagehandler s r.messagetype (r.buffer ++ take n input)).0
            (record r { state = 0; buffer = [] })
            (drop n input)
  fed-behind s r input n three e =
      ap (fed messagehandler (settle messagehandler s r)) (sym (take-append-drop n input))
      ∙ fed-exact s r (take n input) (drop n input) three e

  module _ (s : S) (r : Reader) (input : Bytes) (limit : ℕ)
      (go_on : S → Reader → Bytes → S × Reader) where
    -- What goes on behind a message reads a shorter input.
    abbrev GoesOn : Type 0
    GoesOn =
        (s' : S) (r' : Reader) (rest : Bytes)
        → r'.state ≡ 0
        → r'.buffer ≡ []
        → length rest < limit
        → go_on s' r' rest ≡ feed_all messagehandler s' r' rest

    abbrev Shorter : Type 0
    Shorter = (length input < limit) ⊎ ((length r.buffer < r.messagesize) × (length input ≤ limit))

    drop-Shorter :
        (n : ℕ)
        → Shorter
        → length r.buffer + length (take n input) ≡ r.messagesize
        → length (drop n input) < limit
    drop-Shorter n (inl h) e = omega (arith, length-drop n input)
    drop-Shorter n (inr (h, k)) e = omega (arith, length-drop n input, length-take n input)

    part-fed :
        IsAccepting
        → ltb r.state 3 ≡ false
        → length r.buffer ≤ r.messagesize
        → Shorter
        → GoesOn
        → part_message messagehandler s r input go_on
          ≡ fed messagehandler (settle messagehandler s r) input
    unfolding part_message
    part-fed accepts three kept short next =
        let n = min (lacking r) (length input) in
        let lacks : lacking r ≡ r.messagesize - length r.buffer = lacking_lem r kept in
        let held = r.buffer ++ take n input in
        let len = length-append r.buffer (take n input) in
        elim (Bool-cases (length held == r.messagesize)) [
          | inl full ↦
              let whole : length r.buffer + length (take n input) ≡ r.messagesize =
                ground (arith, full, len) in
              rw (full, accepts s r.messagetype held)
                (next _ _ (drop n input) refl refl (drop-Shorter n short whole)
                  ∙ sym (fed-behind s r input n three whole))
          | inr part ↦
              let lack : length held ≢ r.messagesize = ground (arith, part) in
              let more : length r.buffer + length input < r.messagesize =
                omega (arith, lacks, lack, len, length-take n input) in
              let all : take n input ≡ input = take_all n input (omega (arith, lacks, more)) in
              rw part (rw all (sym (fed-part s r input three more)))
        ]

    whole-fed :
        (n : ℕ)
        → IsAccepting
        → ltb r.state 3 ≡ false
        → r.buffer ≡ []
        → r.messagesize ≡ length (take n input)
        → Shorter
        → GoesOn
        → whole_message messagehandler s r (take n input) (λ s' r'. go_on s' r' (drop n input))
          ≡ fed messagehandler (settle messagehandler s r) input
    whole-fed n accepts three e size short next =
        let whole : length r.buffer + length (take n input) ≡ r.messagesize = rw e (omega arith) in
        whole_message-accepted s r (take n input) _ accepts e
        ∙ (next _ _ (drop n input) refl refl (drop-Shorter n short whole)
            ∙ sym (fed-behind s r input n three whole))

    last-fed :
        IsAccepting
        → ltb r.state 3 ≡ false
        → r.buffer ≡ []
        → r.messagesize ≡ length input
        → whole_message messagehandler s r input (λ s' r'. (s', r'))
          ≡ fed messagehandler (settle messagehandler s r) input
    last-fed accepts three e size =
        let whole : length r.buffer + length input ≡ r.messagesize = rw e (omega arith) in
        whole_message-accepted s r input _ accepts e
        ∙ sym (
            ap (fed messagehandler (settle messagehandler s r)) (sym (append-nil input))
            ∙ (fed-exact s r input [] three whole ∙ unfold feed_all in refl))

    -- What the part of `process` behind the loop does, for whatever goes on behind a message.
    body-fed :
        IsAccepting
        → ltb r.state 3 ≡ false
        → (r.buffer ≡ []) ⊎ (length r.buffer < r.messagesize)
        → Shorter
        → GoesOn
        → body messagehandler s r input go_on ≡ fed messagehandler (settle messagehandler s r) input
    unfolding body
    body-fed accepts three kept short next =
        let bound : length r.buffer ≤ r.messagesize = at_most r.buffer r.messagesize kept in
        elim (Bool-cases (length r.buffer == 0)) [
          | inr begun ↦ rw (three, begun) (part-fed accepts three bound short next)
          | inl empty ↦
              let e = nil_of_length r.buffer (ground (arith, empty)) in
              elim (Bool-cases (length input == r.messagesize)) [
                | inl exact ↦
                    rw (three, empty, exact) (last-fed accepts three e (ground (arith, exact)))
                | inr other ↦ elim (Bool-cases (ltb r.messagesize (length input))) [
                  | inl more ↦
                      rw (three, empty, other, more)
                        (whole-fed r.messagesize accepts three e
                          (omega (arith, length-take r.messagesize input, ltb-true _ _ more)) short
                          next)
                  | inr less ↦
                      rw (three, empty, other, less) (part-fed accepts three bound short next)
                ]
              ]
        ]

  IsOpen-Found : (r : Reader) → IsOpen r → Found r
  IsOpen-Found r (inl f) = inl f
  IsOpen-Found r (inr (three, f)) = inr (three, inr f)

  -- The input behind the header is shorter, or the reader was within a message.
  header-Shorter :
      (r : Reader) (input : Bytes)
      → IsOpen r
      → ltb (header r input).0.state 3 ≡ false
      → (length (header r input).1 < length input)
        ⊎ ((length (header r input).0.buffer < (header r input).0.messagesize)
            × (length (header r input).1 ≤ length input))
  header-Shorter r input (inr (below, f)) h = rw (header_done r input below) (inr (f, omega arith))
  header-Shorter r [] (inl (below, f)) h =
      let stays : ltb r.state 3 ≡ false = rw header_nil at h in cc
  header-Shorter r (byte ∷ input) (inl (below, f)) h =
      rw (header_below r byte input below)
        (inl (omega (arith, header_shorter (header_step r byte) input)))

  IsOpen-part : (r : Reader) → IsOpen r → is_complete r ≡ false
  unfolding is_complete
  IsOpen-part r (inl (below, f)) = rw below
  IsOpen-part r (inr (three, f)) = ground (arith, three)

  below_part : (r : Reader) → ltb r.state 3 ≡ true → is_complete r ≡ false
  unfolding is_complete
  below_part r below = rw below

  after_header :
      (r : Reader)
      → Found r
      → ltb r.state 3 ≡ false
      → (r.buffer ≡ []) ⊎ (length r.buffer < r.messagesize)
  after_header r (inl (below, f)) three = absurd (let same : true ≡ false = rw below at three in cc)
  after_header r (inr (t, f)) three = f

  -- With a handler that always asks to go on, and fuel for one more than the bytes of its input,
  -- the frame reader ends with the same messages handed over, and in the same state, as one that
  -- takes the input byte by byte, from any state between two calls.
  pub process-feed_all :
      IsAccepting
      → (fuel : ℕ) (s : S) (r : Reader) (input : Bytes) → IsOpen r
      → length input < fuel
      → process messagehandler fuel s r input ≡ feed_all messagehandler s r input
  unfolding process header feed_all
  process-feed_all accepts zero s r input o h = absurd (omega arith)
  process-feed_all accepts (suc fuel) s r input o h =
      let r' = (header r input).0 in
      let input' = (header r input).1 in
      let found = header-Found r input (IsOpen-Found r o) in
      rw (feed-header messagehandler s r input (IsOpen-part r o))
        (elim (Bool-cases (ltb r'.state 3)) [
          | inl below ↦
              rw (header_rest r input below, settle_open messagehandler s r' (below_part r' below))
                (unfold body in rw below)
          | inr three ↦
              body-fed s r' input' (length input)
                (λ s' r'' rest. process messagehandler fuel s' r'' rest) accepts three
                (after_header r' found three) (header-Shorter r input o three)
                (λ s' r'' rest z e k.
                  process-feed_all accepts fuel s' r'' rest (inl (rw z refl, inl e)) (omega arith))
        ])
