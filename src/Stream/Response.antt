-- ===== src/Stream/Response.antt =====
-- lw_stream_end_queue_hb in front of a sink, and on a transparent stream such as that of an HTTP request,
-- which passes on what is written to it.
use bluewing_cpp_server.Prelude.{
  ℕ, zero, suc, ◌<◌, ◌&&◌, Bool, true, false, ◌||◌, Option, none, some, List, [], ◌∷◌, ◌++◌, ltb,
  ◌==◌, if◌then◌else◌, ◌>>=◌, Bytes, length, drop, ◌≡◌, ◌⊎◌, refl, sym, arith, inl, inr, All,
  Bool-cases, ap, ◌∙◌, subst, ltb→lt, nil_of_length, append_assoc, append-nil,
}
use bluewing_cpp_server.Stream.{
  queued_data, queued_stream, queued_begin_marker, QueuedType, Queued, Stream, StreamDef,
  transparent, pass,
}
use bluewing_cpp_server.Stream.Write.{Result, write, write_free}
use bluewing_cpp_server.Stream.Queue.{
  back, write_item, drain_data, drain_item, drain_next, write_queue, enough, after_queues,
  write_back_queue, write_queued, lwp_stream_write, end_queue, head_flags, drain_flags,
  end_queue_hb,
}
use bluewing_cpp_server.Stream.Order.{waiting, IsStored, IsOpen}
use bluewing_cpp_server.Stream.Started.{write_queued-started}
use bluewing_cpp_server.Stream.Free.{Free}
use bluewing_cpp_server.Stream.Heads.{end_queue_hb-head}

drop_whole : (b : Bytes) → drop (length b) b ≡ []
drop_whole [] = refl
drop_whole (c ∷ b) = drop_whole b

-- The stream behind the draining of its back queue.
record Passed (s : Stream) (queue : List Queued) (t : Stream) : Type 0 where
  opened : IsOpen t
  alone : t.prev ≡ s.prev
  same_front : t.front_queue ≡ s.front_queue
  stored : All IsStored t.back_queue
  all_out : t.passed ++ waiting t.back_queue ≡ s.passed ++ waiting queue

abbrev Passes : Option Stream → Stream → List Queued → Type 0
Passes result s queue = (t : Stream) × (result ≡ some t) × Passed s queue t

-- The tests of a write, up to that of the sink.
gates :
    (a b c d e : Bool) (u v w x y z : Result)
    → a ≡ false
    → b ≡ false
    → c ≡ false
    → d ≡ false
    → e ≡ true
    → (if a then u else if b then v else if c then w else if d then x else if e then y else z) ≡ y
gates a b c d e u v w x y z f g h i j = rw (f, g, h, i, j) refl

module _ (E : StreamDef) (clear_sink : transparent E.is_transparent ≡ true) where
  item_passed :
      (s : Stream) (buffer : Bytes)
      → IsOpen s
      → s.prev ≡ []
      → 0 < length buffer
      → write E some s buffer drain_flags ≡ some (length buffer, pass s buffer)
  unfolding write write_free
  item_passed s buffer h e p =
      gates (s.dead || s.closing || s.close_asap) (length buffer == 0) s.head_upstream
        (ltb 0 (length s.prev)) (transparent E.is_transparent) _ _ _ _ _ _
        (ground (arith, h.0, h.1, h.2)) (ground (arith, p)) h.3 (ground (arith, ap length e))
        clear_sink

  head_passed :
      (s : Stream) (buffer : Bytes)
      → IsOpen s
      → s.prev ≡ []
      → 0 < length buffer
      → lwp_stream_write E s buffer head_flags ≡ some (length buffer, pass s buffer)
  unfolding lwp_stream_write write write_free
  head_passed s buffer h e p =
      gates (s.dead || s.closing || s.close_asap) (length buffer == 0) s.head_upstream
        (ltb 0 (length s.prev)) (transparent E.is_transparent) _ _ _ _ _ _
        (ground (arith, h.0, h.1, h.2)) (ground (arith, p)) h.3 (ground (arith, ap length e))
        clear_sink

  -- One item, with what goes on behind it.
  data_passed :
      (s : Stream) (q : Queued) (queue : List Queued) (go_on : Stream → Option Stream)
      → IsOpen s
      → s.prev ≡ []
      → drain_data E back s q queue go_on
        ≡ go_on (record s { passed = s.passed ++ q.buffer; back_queue = queue })
  unfolding drain_data write_item pass
  data_passed s q queue go_on h e = elim (Bool-cases (ltb 0 (length q.buffer))) [
    | inl bytes ↦
        rw (bytes, item_passed s q.buffer h e (ltb→lt 0 (length q.buffer) bytes))
          (rw drop_whole refl)
    | inr empty ↦
        let nothing : q.buffer ≡ [] = nil_of_length q.buffer (ground (arith, empty)) in
        rw empty (
          ap (λ b. go_on (record s { passed = b; back_queue = queue }))
            (sym (append-nil s.passed) ∙ ap (λ b. s.passed ++ b) (sym nothing)))
  ]

  item-Passes :
      (go_on : Stream → Option Stream) (type : QueuedType) (s : Stream) (q : Queued)
      (queue : List Queued)
      → q.type ≡ type
      → IsOpen s
      → s.prev ≡ []
      → All IsStored (q ∷ queue)
      → ((t : Stream) → IsOpen t → t.prev ≡ [] → t.back_queue ≡ queue → Passes (go_on t) t queue)
      → Passes (drain_item E type back s q queue go_on) s (q ∷ queue)
  unfolding drain_item
  item-Passes go_on queued_data s q queue d h e a rest =
      let next = record s { passed = s.passed ++ q.buffer; back_queue = queue } in
      let (t, r, p) = rest next h e refl in
      (
        t,
        data_passed s q queue go_on h e ∙ r,
        record {
          opened = p.opened;
          alone = p.alone;
          same_front = p.same_front;
          stored = p.stored;
          all_out =
              p.all_out
              ∙ append_assoc s.passed q.buffer (waiting queue)
              ∙ ap (λ b. s.passed ++ b) (rw d refl);
        },
      )
  item-Passes go_on queued_stream s q queue d h e a rest = absurd (a.0 d)
  item-Passes go_on queued_begin_marker s q queue d h e a rest = (
    record s { back_queue = queue; queueing = true },
    refl,
    record {
      opened = h;
      alone = refl;
      same_front = refl;
      stored = a.1;
      all_out = ap (λ b. s.passed ++ b) (rw d refl);
    },
  )

  queue_passed :
      (fuel : ℕ) (s : Stream) (queue : List Queued)
      → IsOpen s
      → s.prev ≡ []
      → s.back_queue ≡ queue
      → All IsStored queue
      → length queue < fuel
      → Passes (write_queue E fuel back s) s queue
  unfolding write_queue drain_next
  queue_passed zero s queue h e w a l = absurd (omega arith)
  queue_passed (suc fuel) s [] h e w a l = (
    s,
    ap (λ items. drain_next E back s items (write_queue E fuel back)) w,
    record {
      opened = h;
      alone = refl;
      same_front = refl;
      stored = subst (λ items. All IsStored items) (sym w) tt;
      all_out = ap (λ items. s.passed ++ waiting items) w;
    },
  )
  queue_passed (suc fuel) s (q ∷ queue) h e w a l =
      let (t, r, p) =
        item-Passes (write_queue E fuel back) q.type s q queue refl h e a
          (λ t h e w. queue_passed fuel t queue h e w a.1 (omega arith)) in
      (t, ap (λ items. drain_next E back s items (write_queue E fuel back)) w ∙ r, p)

  back_passed :
      (s : Stream)
      → IsOpen s
      → s.prev ≡ []
      → s.front_queue ≡ []
      → All IsStored s.back_queue
      → (t : Stream) × (write_back_queue E s ≡ some t)
        × Free t
        × (t.passed ++ waiting t.back_queue ≡ s.passed ++ waiting s.back_queue)
  unfolding write_back_queue after_queues
  back_passed s h e f a =
      let (t, r, p) = queue_passed (enough s) s s.back_queue h e refl a (omega arith) in
      let both : (length s.front_queue == 0 && length s.prev == 0) ≡ true =
        ground (arith, ap length f, ap length e) in
      let done = record t { draining_queues = false } in
      (
        done,
        ap
              (λ b.
                if b
                then write_queue E (enough s) back s
                  >>= (λ t. if t.dead then some t else after_queues E t)
                else after_queues E s)
              both
            ∙ ap (λ o. o >>= (λ t. if t.dead then some t else after_queues E t)) r
            ∙ ap (λ b. if b then some t else after_queues E t) p.opened.0
            ∙ rw p.opened.2 refl,
        record {
          steady = record {
            opened = p.opened;
            idle = refl;
            front_stored = subst (λ q. All IsStored q) (sym (p.same_front ∙ f)) tt;
            back_stored = p.stored;
          };
          alone = p.alone ∙ e;
          no_front = p.same_front ∙ f;
        },
        p.all_out,
      )

  end_queue_hb-passed :
      (s : Stream) (head : Bytes)
      → Free s
      → s.queueing ≡ true
      → 0 < length head
      → (t : Stream) × (end_queue_hb E s (head ∷ []) ≡ some t)
        × Free t
        × (t.passed ++ waiting t.back_queue ≡ s.passed ++ (head ++ waiting s.back_queue))
  unfolding end_queue_hb end_queue pass
  end_queue_hb-passed s head f begun p =
      let k = f.steady in
      let t = pass s head in
      let ended = record t { queueing = false } in
      let (u, r, g, o) =
        back_passed (record ended { draining_queues = true }) k.opened f.alone f.no_front
          k.back_stored in
      (
        u,
        ap (λ x. x >>= (λ (_, y). end_queue E y)) (head_passed s head k.opened f.alone p)
            ∙ ap (λ b. if b then write_queued E ended else none) begun
            ∙ write_queued-started E ended refl k.idle f.no_front k.opened.0
            ∙ r,
        g,
        o ∙ append_assoc s.passed head (waiting s.back_queue),
      )

-- What has come out of a stream, through its sink or past it.
abbrev pub went : StreamDef → Stream → Bytes
went E s = if transparent E.is_transparent then s.passed else s.sunk

abbrev pub StartsWithData : List Queued → Type 0
StartsWithData [] = ⊥
StartsWithData (q ∷ queue) = q.type ≡ queued_data

split_data :
    (queue : List Queued)
    → StartsWithData queue
    → (q : Queued) × (rest : List Queued) × (queue ≡ q ∷ rest) × (q.type ≡ queued_data)
split_data [] d = absurd d
split_data (q ∷ queue) d = (q, queue, refl, d)

-- On a stream that is open (neither dead, closing nor waiting to close), has no filter, is not draining,
-- and has no source linked or queued and an empty front queue, where a queue has begun: ending it with a
-- head of at least a byte comes back with the stream as free as it was, and what has come out and what
-- still waits is what had come out before, the head, and then the queue, in order. On a transparent stream,
-- as that of an HTTP request, this is so whatever is queued; in front of a sink, however little of the
-- head that takes, if the first item of the queue holds data.
pub end_queue_hb-out :
    (E : StreamDef) (s : Stream) (head : Bytes)
    → Free s
    → s.queueing ≡ true
    → 0 < length head
    → (transparent E.is_transparent ≡ true) ⊎ StartsWithData s.back_queue
    → (t : Stream) × (end_queue_hb E s (head ∷ []) ≡ some t)
      × Free t
      × (went E t ++ waiting t.back_queue ≡ went E s ++ (head ++ waiting s.back_queue))
end_queue_hb-out E s head f begun p first = elim (Bool-cases (transparent E.is_transparent)) [
  | inl e ↦ rw e (end_queue_hb-passed E e s head f begun p)
  | inr e ↦
      let data_first : StartsWithData s.back_queue = elim first [
        | inl clear ↦ absurd (ground (arith, e, clear))
        | inr d ↦ d
      ] in
      let (q, queue, w, d) = split_data s.back_queue data_first in
      let (t, r, g, c) = end_queue_hb-head E e s head q queue f begun w d p in
      rw e (
        t,
        r,
        g,
        ap (λ items. t.sunk ++ (waiting items ++ waiting t.back_queue)) (sym g.no_front) ∙ c,
      )
]
