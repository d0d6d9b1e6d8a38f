-- ===== src/Stream/Rounds.antt =====
-- The loop of lwp_stream_write_queue, a round at a time.
use bluewing_cpp_server.Prelude.{
  ℕ, zero, suc, ◌+◌, ◌<◌, false, Option, some, List, [], ◌∷◌, ◌++◌, ltb, lt→ltb, ltb→lt, subst,
  if◌then◌else◌, Bytes, length, take, drop, ◌≡◌, refl, sym, arith, inl, inr, All, Bool-cases,
  length-take, length-drop, length-append, ◌∙◌, append_assoc, nil_of_length, ap,
}
use bluewing_cpp_server.Stream.{
  QueuedType, queued_data, queued_stream, queued_begin_marker, Queued, Stream, StreamDef,
  transparent, takes, sink,
}
use bluewing_cpp_server.Stream.Write.{write, write_busy, write_free}
use bluewing_cpp_server.Stream.Queue.{
  Which, queue_of, put_queue, write_item, drain_data, drain_item, drain_next, write_queue,
}
use bluewing_cpp_server.Stream.Order.{
  waiting, waiting-data, waiting_cut, IsStored, IsOpen, after, Ends, Ends-nil, Ends-marker,
  Ends-partial, drained-after, drained-put, queue_of-after, queue_of-put, queueing-put,
  queueing-after, IsOpen-after, IsOpen-put,
}

module _ (E : StreamDef) (opaque_sink : transparent E.is_transparent ≡ false) where
  -- A write that ignores the queue and takes what it gets is a call of the sink.
  pub write_item-sink :
      (s : Stream) (buffer : Bytes)
      → IsOpen s
      → 0 < length buffer
      → write_item E s buffer ≡ some (sink E s buffer)
  unfolding write_item write write_busy write_free
  write_item-sink s buffer h p = ground (arith, opaque_sink)

  -- The round over an item with data.
  drain_data-sink :
      (w : Which) (s : Stream) (q : Queued) (queue : List Queued) (go_on : Stream → Option Stream)
      → IsOpen s
      → 0 < length q.buffer
      → drain_data E w s q queue go_on ≡ (
          let n = takes E.sink_data s.sinks q.buffer in
          if ltb 0 (length (drop n q.buffer))
          then some (
              after w s
                (record q { buffer = drop n q.buffer } ∷ queue)
                (take n q.buffer)
                (s.sinks + 1))
          else go_on (after w s queue (take n q.buffer) (s.sinks + 1)))
  unfolding drain_data sink
  drain_data-sink w s q queue go_on h p =
      rw (lt→ltb 0 (length q.buffer) p, write_item-sink s q.buffer h p) refl

  drain_data_empty :
      (w : Which) (s : Stream) (q : Queued) (queue : List Queued) (go_on : Stream → Option Stream)
      → length q.buffer ≡ 0
      → drain_data E w s q queue go_on ≡ go_on (put_queue w queue s)
  unfolding drain_data
  drain_data_empty w s q queue go_on e = rw e refl

  round_empty :
      (w : Which) (s : Stream) (q : Queued) (queue : List Queued) (result : Option Stream)
      → q.type ≡ queued_data
      → length q.buffer ≡ 0
      → Ends E result w (put_queue w queue s) queue
      → Ends E result w s (q ∷ queue)
  round_empty w s q queue result d e (o, r, f, a, l, g, k) = (
    o,
    r ∙ ap some (drained-put w s queue o),
    waiting-data q queue d ∙ ap (λ b. b ++ waiting queue) (nil_of_length q.buffer e) ∙ f,
    a,
    omega arith,
    g,
    λ x. (let (y, z) = k x.1 in (y, z ∙ queueing-put w queue s)),
  )

  round_whole :
      (w : Which) (s : Stream) (q : Queued) (queue : List Queued) (n : ℕ) (result : Option Stream)
      → q.type ≡ queued_data
      → 0 < length q.buffer
      → length (drop n q.buffer) ≡ 0
      → Ends E result w (after w s queue (take n q.buffer) (s.sinks + 1)) queue
      → Ends E result w s (q ∷ queue)
  round_whole w s q queue n result d p e (o, r, f, a, l, g, k) = (
    record o { bytes = take n q.buffer ++ o.bytes },
    r ∙ ap some (drained-after w s queue (take n q.buffer) (s.sinks + 1) o),
    waiting_cut q queue n d
        ∙ ap (λ b. take n q.buffer ++ b)
            (waiting-data (record q { buffer = drop n q.buffer }) queue d
              ∙ ap (λ b. b ++ waiting queue) (nil_of_length (drop n q.buffer) e)
              ∙ f)
        ∙ sym (append_assoc (take n q.buffer) o.bytes (waiting o.left)),
    a,
    omega arith,
    λ h. inr (
        inr (
          omega (
            arith,
            length-take n q.buffer,
            length-drop n q.buffer,
            length-append (take n q.buffer) o.bytes,
          ))),
    λ x. (let (y, z) = k x.1 in (y, z ∙ queueing-after w s queue (take n q.buffer) (s.sinks + 1))),
  )

  round_sink :
      (w : Which) (s : Stream) (q : Queued) (queue : List Queued) (go_on : Stream → Option Stream)
      → IsOpen s
      → q.type ≡ queued_data
      → 0 < length q.buffer
      → All IsStored (q ∷ queue)
      → ((t : Stream) → IsOpen t → queue_of w t ≡ queue → Ends E (go_on t) w t queue)
      → let n = takes E.sink_data s.sinks q.buffer in
        Ends E
          (if ltb 0 (length (drop n q.buffer))
            then some (
                after w s
                  (record q { buffer = drop n q.buffer } ∷ queue)
                  (take n q.buffer)
                  (s.sinks + 1))
            else go_on (after w s queue (take n q.buffer) (s.sinks + 1)))
          w
          s
          (q ∷ queue)
  round_sink w s q queue go_on h d p a rest =
      let n = takes E.sink_data s.sinks q.buffer in
      elim (Bool-cases (ltb 0 (length (drop n q.buffer)))) [
        | inl more ↦ rw more (Ends-partial E w s q queue (s.sinks + 1) d p a)
        | inr done ↦
            let t = after w s queue (take n q.buffer) (s.sinks + 1) in
            rw done (
              round_whole w s q queue n (go_on t) d p (ground (arith, done)) (
                rest t (IsOpen-after w s queue (take n q.buffer) (s.sinks + 1) h)
                  (queue_of-after w s queue (take n q.buffer) (s.sinks + 1))))
      ]

  round_data :
      (w : Which) (s : Stream) (q : Queued) (queue : List Queued) (go_on : Stream → Option Stream)
      → IsOpen s
      → q.type ≡ queued_data
      → All IsStored (q ∷ queue)
      → ((t : Stream) → IsOpen t → queue_of w t ≡ queue → Ends E (go_on t) w t queue)
      → Ends E (drain_data E w s q queue go_on) w s (q ∷ queue)
  round_data w s q queue go_on h d a rest = elim (Bool-cases (ltb 0 (length q.buffer))) [
    | inl some_data ↦
        subst (λ r. Ends E r w s (q ∷ queue))
          (sym (drain_data-sink w s q queue go_on h (ltb→lt 0 (length q.buffer) some_data)))
          (round_sink w s q queue go_on h d (ltb→lt 0 (length q.buffer) some_data) a rest)
    | inr no_data ↦
        let e : length q.buffer ≡ 0 = ground (arith, no_data) in
        subst (λ r. Ends E r w s (q ∷ queue)) (sym (drain_data_empty w s q queue go_on e))
          (round_empty w s q queue (go_on (put_queue w queue s)) d e
            (rest (put_queue w queue s) (IsOpen-put w queue s h) (queue_of-put w queue s)))
  ]

  round_item :
      (type : QueuedType) (w : Which) (s : Stream) (q : Queued) (queue : List Queued)
      (go_on : Stream → Option Stream)
      → IsOpen s
      → q.type ≡ type
      → All IsStored (q ∷ queue)
      → ((t : Stream) → IsOpen t → queue_of w t ≡ queue → Ends E (go_on t) w t queue)
      → Ends E (drain_item E type w s q queue go_on) w s (q ∷ queue)
  unfolding drain_item
  round_item queued_data w s q queue go_on h d a rest = round_data w s q queue go_on h d a rest
  round_item queued_stream w s q queue go_on h d a rest = absurd (a.0 d)
  round_item queued_begin_marker w s q queue go_on h d a rest = Ends-marker E w s q queue d a.1

  pub write_queue-Ends :
      (fuel : ℕ) (w : Which) (s : Stream) (queue : List Queued)
      → IsOpen s
      → queue_of w s ≡ queue
      → All IsStored queue
      → length queue < fuel
      → Ends E (write_queue E fuel w s) w s queue
  unfolding write_queue drain_next
  write_queue-Ends zero w s queue h e a l = absurd (omega arith)
  write_queue-Ends (suc fuel) w s [] h e a l = rw (e, drain_next) (Ends-nil E w s e)
  write_queue-Ends (suc fuel) w s (q ∷ queue) h e a l =
      subst (λ items. Ends E (drain_next E w s items (write_queue E fuel w)) w s (q ∷ queue))
        (sym e)
        (round_item q.type w s q queue (write_queue E fuel w) h refl a
          (λ t g f. write_queue-Ends fuel w t queue g f a.1 (omega arith)))
