-- ===== src/Stream/Heads.antt =====
-- lw_stream_end_queue_hb: a head that goes out in front of what has been queued.
use bluewing_cpp_server.Prelude.{
  ◌<◌, true, false, not, Option, none, some, List, [], ◌∷◌, ◌++◌, ltb, if◌then◌else◌, ◌>>=◌, Bytes,
  length, take, drop, ◌≡◌, refl, sym, arith, inl, inr, All, Bool-cases, ap, ◌∙◌, subst, lt→ltb,
  append_assoc, append-nil, take-append-drop, take_all,
}
use bluewing_cpp_server.Stream.{
  queued_data, queued_stream, Queued, Stream, StreamDef, transparent, takes, sink,
}
use bluewing_cpp_server.Stream.Write.{Result, put_back, write, write_free}
use bluewing_cpp_server.Stream.Queue.{
  write_queued, lwp_stream_write, end_queue, head_flags, end_queue_hb,
}
use bluewing_cpp_server.Stream.Order.{waiting, IsStored, IsOpen}
use bluewing_cpp_server.Stream.Drain.{contents, write_queued-Keeps}
use bluewing_cpp_server.Stream.Free.{Free, Adds, Keeps-Adds, sunk}
use bluewing_cpp_server.Stream.PutBack.{
  put_first, put_back-first, waiting-put_first, All-IsStored-put_first, waiting-put_first_source,
  unqueued-Free, nothing_first, no_middle,
}

module _ (E : StreamDef) (opaque_sink : transparent E.is_transparent ≡ false) where
  head_written :
      (s : Stream) (head : Bytes)
      → IsOpen s
      → s.prev ≡ []
      → 0 < length head
      → let n = takes E.sink_data s.sinks head in
        lwp_stream_write E s head head_flags ≡ (
          if not (ltb n (length head))
          then some (length head, sunk E s head)
          else put_back s.back_queue (drop n head)
            >>= (λ queue. some (length head, record (sunk E s head) { back_queue = queue })))
  unfolding lwp_stream_write write write_free sunk sink
  head_written s head h e p = ground (arith, h, ap length e, opaque_sink)

  sunk-Free :
      (s : Stream) (head : Bytes) (queue : List Queued)
      → Free s
      → All IsStored queue
      → Free (record (sunk E s head) { back_queue = queue })
  unfolding sunk sink
  sunk-Free s head queue f a = record {
    steady = record {
      opened = f.steady.opened;
      idle = f.steady.idle;
      front_stored = f.steady.front_stored;
      back_stored = a;
    };
    alone = f.alone;
    no_front = f.no_front;
  }

  -- The stream behind the write of a head: as it was, but for what was sunk and the back queue.
  abbrev pub Heads : Result → Stream → Bytes → Type 0
  Heads result s head =
      (t : Stream) × (result ≡ some (length head, t))
      × Free t
      × (t.queueing ≡ s.queueing)
      × (contents t ≡ s.sunk ++ (head ++ waiting s.back_queue))

  head_nothing :
      (s : Stream) (head : Bytes)
      → IsOpen s
      → length head ≡ 0
      → lwp_stream_write E s head head_flags ≡ some (0, s)
  unfolding lwp_stream_write write
  head_nothing s head h e = ground (arith, h)

  -- With nothing in the front queue.
  contents-head :
      (s : Stream) (head : Bytes) (queue : List Queued)
      → s.front_queue ≡ []
      → contents (record (sunk E s head) { back_queue = queue })
        ≡ s.sunk ++ (take (takes E.sink_data s.sinks head) head ++ waiting queue)
  unfolding sunk sink
  contents-head s head queue e =
      no_middle (s.sunk ++ take (takes E.sink_data s.sinks head) head) (waiting s.front_queue)
        (waiting queue) (ap waiting e)
      ∙ append_assoc s.sunk (take (takes E.sink_data s.sinks head) head) (waiting queue)

  abbrev pub headed : Stream → Bytes → List Queued → Stream
  headed s head queue = record (sunk E s head) { back_queue = queue }

  head_whole :
      (s : Stream) (head : Bytes)
      → IsOpen s
      → s.prev ≡ []
      → 0 < length head
      → ltb (takes E.sink_data s.sinks head) (length head) ≡ false
      → lwp_stream_write E s head head_flags ≡ some (length head, headed s head s.back_queue)
  unfolding sunk sink
  head_whole s head h g p whole = head_written s head h g p ∙ rw whole refl

  head_part :
      (s : Stream) (head : Bytes) (q : Queued) (queue : List Queued)
      → IsOpen s
      → s.prev ≡ []
      → s.back_queue ≡ q ∷ queue
      → 0 < length head
      → ltb (takes E.sink_data s.sinks head) (length head) ≡ true
      → lwp_stream_write E s head head_flags
        ≡ some (
          length head,
          headed s head (put_first q queue (drop (takes E.sink_data s.sinks head) head)),
        )
  head_part s head q queue h g e p part =
      let rest = drop (takes E.sink_data s.sinks head) head in
      let go_on : Option (List Queued) → Result =
        λ o. o >>= (λ items. some (length head, headed s head items)) in
      head_written s head h g p
      ∙ rw part refl
      ∙ ap (λ items. go_on (put_back items rest)) e
      ∙ ap go_on (put_back-first q queue rest)

  queueing-headed :
      (s : Stream) (head : Bytes) (queue : List Queued)
      → (headed s head queue).queueing ≡ s.queueing
  unfolding sunk sink
  queueing-headed s head queue = refl

  head-Heads :
      (s : Stream) (head : Bytes) (q : Queued) (queue : List Queued)
      → Free s
      → s.back_queue ≡ q ∷ queue
      → q.type ≡ queued_data
      → 0 < length head
      → Heads (lwp_stream_write E s head head_flags) s head
  head-Heads s head q queue f e d p =
      let n = takes E.sink_data s.sinks head in
      elim (Bool-cases (ltb n (length head))) [
        | inr whole ↦ (
          headed s head s.back_queue,
          head_whole s head f.steady.opened f.alone p whole,
          sunk-Free s head s.back_queue f f.steady.back_stored,
          queueing-headed s head s.back_queue,
          contents-head s head s.back_queue f.no_front
              ∙ ap (λ b. s.sunk ++ (b ++ waiting s.back_queue))
                  (take_all n head (ground (arith, whole))),
        )
        | inl part ↦ (
          headed s head (put_first q queue (drop n head)),
          head_part s head q queue f.steady.opened f.alone e p part,
          sunk-Free s head (put_first q queue (drop n head)) f (
              All-IsStored-put_first q queue (drop n head)
                (subst (λ items. All IsStored items) e f.steady.back_stored)),
          queueing-headed s head (put_first q queue (drop n head)),
          contents-head s head (put_first q queue (drop n head)) f.no_front
              ∙ ap (λ b. s.sunk ++ b)
                  (ap (λ b. take n head ++ b) (waiting-put_first q queue (drop n head) d)
                    ∙ sym (append_assoc (take n head) (drop n head) (waiting (q ∷ queue)))
                    ∙ ap (λ b. b ++ waiting (q ∷ queue)) (take-append-drop n head)
                    ∙ ap (λ items. head ++ waiting items) (sym e)),
        )
      ]

  ended-Adds : (s : Stream) → Free s → s.queueing ≡ true → Adds (end_queue E s) s []
  unfolding end_queue
  ended-Adds s f begun =
      let t = record s { queueing = false } in
      subst (λ r. Adds r s []) (sym (ap (λ b. if b then write_queued E t else none) begun))
        (Keeps-Adds (write_queued E t) t (unqueued-Free s f)
          (write_queued-Keeps E opaque_sink t (unqueued-Free s f).steady))

  -- On a stream that is not transparent is open (neither
  -- dead, closing nor waiting to close), has no filter, is not draining, and has no source linked or
  -- queued and an empty front queue: where a queue has begun and its first item holds data, ending it with
  -- a head of at least a byte comes back with the stream as free as it was, and the head stands behind
  -- what the sink had taken, and in front of the queue, however little of it the sink takes.
  pub end_queue_hb-head :
      (s : Stream) (head : Bytes) (q : Queued) (queue : List Queued)
      → Free s
      → s.queueing ≡ true
      → s.back_queue ≡ q ∷ queue
      → q.type ≡ queued_data
      → 0 < length head
      → (t : Stream) × (end_queue_hb E s (head ∷ []) ≡ some t)
        × Free t
        × (contents t ≡ s.sunk ++ (head ++ waiting s.back_queue))
  unfolding end_queue_hb
  end_queue_hb-head s head q queue f begun e d p =
      let (t, r, g, b, c) = head-Heads s head q queue f e d p in
      let (u, v, h, k) = ended-Adds t g (b ∙ begun) in
      (u, ap (λ x. x >>= (λ (_, y). end_queue E y)) r ∙ v, h, k ∙ append-nil (contents t) ∙ c)

  -- A head of which the sink takes only a part is written through a null pointer where nothing is
  -- queued.
  pub head_unqueued :
      (s : Stream) (head : Bytes)
      → IsOpen s
      → s.prev ≡ []
      → s.back_queue ≡ []
      → 0 < length head
      → takes E.sink_data s.sinks head < length head
      → lwp_stream_write E s head head_flags ≡ none
  head_unqueued s head h g e p l =
      let n = takes E.sink_data s.sinks head in
      head_written s head h g p
      ∙ rw (lt→ltb n (length head) l) refl
      ∙ ap (λ items. put_back items (drop n head) >>= (λ x. some (length head, headed s head x))) e
      ∙ nothing_first (drop n head) (λ x. some (length head, headed s head x))

  -- On a stream that is not transparent, is open (neither dead, closing nor waiting to close), has no
  -- filter and no source linked, and an empty front queue: the rest of a head of which the sink takes only
  -- a part is lost where a source, with an empty buffer of its own, is first in the back queue. The write
  -- returns the size of the head, and the rest is neither sunk nor waits.
  pub head_lost :
      (s : Stream) (head : Bytes) (q : Queued) (queue : List Queued)
      → IsOpen s
      → s.prev ≡ []
      → s.front_queue ≡ []
      → s.back_queue ≡ q ∷ queue
      → q.type ≡ queued_stream
      → length q.buffer ≡ 0
      → 0 < length head
      → takes E.sink_data s.sinks head < length head
      → (t : Stream) × (lwp_stream_write E s head head_flags ≡ some (length head, t))
        × (contents t
            ≡ s.sunk ++ (take (takes E.sink_data s.sinks head) head ++ waiting s.back_queue))
  head_lost s head q queue h g k e d z p l =
      let n = takes E.sink_data s.sinks head in
      (
        headed s head (put_first q queue (drop n head)),
        head_part s head q queue h g e p (lt→ltb n (length head) l),
        contents-head s head (put_first q queue (drop n head)) k
            ∙ ap (λ b. s.sunk ++ (take n head ++ b))
                (waiting-put_first_source q queue (drop n head) d z ∙ ap waiting (sym e)),
      )
