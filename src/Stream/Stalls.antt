-- ===== src/Stream/Stalls.antt =====
-- Where a stream does not do what its comments say: after a close that waits, with two sources in a
-- queue, and behind a source that has ended.
use bluewing_cpp_server.Prelude.{
  ℕ, suc, ◌+◌, ◌<◌, Bool, true, false, ◌&&◌, Option, none, some, List, [], ◌∷◌, ◌++◌, ltb, ◌==◌,
  if◌then◌else◌, ◌>>=◌, Bytes, length, take, drop, ◌≡◌, refl, sym, arith, ap, ◌∙◌, subst, map,
  lt→ltb,
}
use bluewing_cpp_server.Stream.{
  queued_data, Queued, Flags, Stream, StreamDef, transparent, takes, may_close, retry_now, sink,
  queue_back,
}
use bluewing_cpp_server.Stream.Write.{write}
use bluewing_cpp_server.Stream.Queue.{
  back, write_item, drain_data, drain_item, drain_next, write_queue, after_queues, write_back_queue,
  write_queued, retry, lwp_stream_write,
}
use bluewing_cpp_server.Stream.Started.{write_queued-started}
use bluewing_cpp_server.Stream.Free.{plain, sunk}
use bluewing_cpp_server.Stream.Plain.{write_alone, write_free_sunk}
use bluewing_cpp_server.Stream.Order.{IsOpen}
use bluewing_cpp_server.Stream.Traces.{Call, call_write, call_retry, call, run}

-- A write, or the news that the sink has room.
abbrev pub attempt : Option Bytes → Call
attempt none = call_retry retry_now
attempt (some bytes) = call_write bytes

-- A stream that was to close with data in its back queue.
pub record ToClose (s : Stream) : Type 0 where
  pub asked : s.close_asap ≡ true
  pub not_queueing : s.queueing ≡ false
  pub alive : s.dead ≡ false
  pub no_front : s.front_queue ≡ []
  pub item : Queued
  pub behind : List Queued
  pub waits : s.back_queue ≡ item ∷ behind
  pub is_data : item.type ≡ queued_data
  pub some_data : 0 < length item.buffer

if_same {ℓ} : {A : Type ℓ} {x y z : A} (b : Bool) → x ≡ z → y ≡ z → (if b then x else y) ≡ z
if_same true e f = e
if_same false e f = f

module _ (E : StreamDef) where
  refused :
      (again : Stream → Option Stream) (s : Stream) (bytes : Bytes) (f : Flags)
      → s.close_asap ≡ true
      → write E again s bytes f ≡ some (0, s)
  unfolding write
  refused again s bytes f e = ground (arith, e)

  item_refused :
      (s : Stream) (q : Queued) (queue : List Queued) (go_on : Stream → Option Stream)
      → s.close_asap ≡ true
      → 0 < length q.buffer
      → drain_data E back s q queue go_on ≡ some (record s { back_queue = q ∷ queue })
  unfolding drain_data write_item
  item_refused s q queue go_on e p =
      rw (lt→ltb 0 (length q.buffer) p, refused some s q.buffer _ e)
        (rw (lt→ltb 0 (length q.buffer) p) refl)

  back_refused :
      (fuel : ℕ) (s : Stream)
      → s.close_asap ≡ true
      → (q : Queued) (queue : List Queued) → s.back_queue ≡ q ∷ queue
      → q.type ≡ queued_data
      → 0 < length q.buffer
      → write_queue E (suc fuel) back s ≡ some s
  unfolding write_queue drain_next drain_item
  back_refused fuel s c q queue w d p =
      ap (λ items. drain_next E back s items (write_queue E fuel back)) w
      ∙ ap (λ type. drain_item E type back s q queue (write_queue E fuel back)) d
      ∙ item_refused s q queue (write_queue E fuel back) c p
      ∙ ap (λ items. some (record s { back_queue = items })) (sym w)

  after_waiting :
      (s : Stream)
      → 0 < length s.back_queue
      → after_queues E s ≡ some (record s { draining_queues = false })
  unfolding after_queues may_close
  after_waiting s p = ground (arith, p)

  back_stuck :
      (s : Stream) → ToClose s → write_back_queue E s ≡ some (record s { draining_queues = false })
  unfolding write_back_queue
  back_stuck s k =
      let p : 0 < length s.back_queue = subst (λ q. 0 < length q) (sym k.waits) (omega arith) in
      if_same (length s.front_queue == 0 && length s.prev == 0)
        (ap (λ r. r >>= (λ t. if t.dead then some t else after_queues E t))
            (back_refused (length s.front_queue + length s.back_queue) s k.asked k.item k.behind
              k.waits k.is_data k.some_data)
          ∙ ap (λ d. if d then some s else after_queues E s) k.alive
          ∙ after_waiting s p)
        (after_waiting s p)

  started-ToClose : (s : Stream) → ToClose s → ToClose (record s { draining_queues = true })
  started-ToClose s k = record {
    asked = k.asked;
    not_queueing = k.not_queueing;
    alive = k.alive;
    no_front = k.no_front;
    item = k.item;
    behind = k.behind;
    waits = k.waits;
    is_data = k.is_data;
    some_data = k.some_data;
  }

  queued_stuck : (s : Stream) → ToClose s → s.draining_queues ≡ false → write_queued E s ≡ some s
  queued_stuck s k idle =
      let started = record s { draining_queues = true } in
      write_queued-started E s k.not_queueing idle k.no_front k.alive
      ∙ back_stuck started (started-ToClose s k)
      ∙ ap (λ b. some (record s { draining_queues = b })) (sym idle)

  -- Where a close waits for the data in the back queue, every further write is refused, and no news
  -- from the sink changes the stream: the data are not written, and it does not close.
  pub run-ToClose :
      (attempts : List (Option Bytes)) (s : Stream)
      → ToClose s
      → s.draining_queues ≡ false
      → run E (map attempt attempts) s ≡ some s
  unfolding run call retry lwp_stream_write
  run-ToClose [] s k idle = refl
  run-ToClose (none ∷ attempts) s k idle =
      rw (queued_stuck s k idle) (run-ToClose attempts s k idle)
  run-ToClose (some bytes ∷ attempts) s k idle =
      rw (refused (write_queued E) s bytes plain k.asked) (run-ToClose attempts s k idle)

module _ (E : StreamDef) (opaque_sink : transparent E.is_transparent ≡ false) where
  sunk_past :
      (s : Stream) (bytes : Bytes) (b : Bool)
      → let n = takes E.sink_data s.sinks bytes in
        let t = if b then queue_back (sunk E s bytes) (drop n bytes) else sunk E s bytes in
        (t.sunk ≡ s.sunk ++ take n bytes) × (t.front_queue ≡ s.front_queue)
  unfolding sunk sink queue_back
  sunk_past s bytes true = (refl, refl)
  sunk_past s bytes false = (refl, refl)

  -- Once no source is behind a stream, a write with nothing in the back queue goes to the sink at once,
  -- whatever a source that has ended left in the front queue: the sink gets the new bytes first.
  pub write_past_front :
      (s : Stream) (bytes : Bytes)
      → IsOpen s
      → s.prev ≡ []
      → s.queueing ≡ false
      → s.back_queue ≡ []
      → 0 < length bytes
      → (t : Stream) × (lwp_stream_write E s bytes plain ≡ some (length bytes, t))
        × (t.sunk ≡ s.sunk ++ take (takes E.sink_data s.sinks bytes) bytes)
        × (t.front_queue ≡ s.front_queue)
  unfolding lwp_stream_write
  write_past_front s bytes h e q b p =
      let n = takes E.sink_data s.sinks bytes in
      let whole = ltb n (length bytes) in
      let (a, c) = sunk_past s bytes whole in
      (
        if whole then queue_back (sunk E s bytes) (drop n bytes) else sunk E s bytes,
        write_alone E opaque_sink (write_queued E) s bytes h e p
            ∙ write_free_sunk E opaque_sink (write_queued E) s bytes
                (ground (arith, q, ap length b)),
        a,
        c,
      )
