-- ===== src/Stream/Queue.antt =====
-- The draining of the queues, with lwp_stream_write_stream and the calls that start and end a queue.
-- Sources are numbers; what a source sends later comes in calls of lwp_stream_write of their own.
use bluewing_cpp_server.Prelude.{
  ℕ, zero, suc, ◌+◌, ◌%◌, ◌^◌, Bool, true, false, not, ◌&&◌, ◌||◌, Option, none, some, List, [],
  ◌∷◌, ◌++◌, ltb, ◌==◌, if◌then◌else◌, ◌>>=◌, Bytes, length, drop,
}
use bluewing_cpp_server.Stream.{
  QueuedType, queued_data, queued_stream, queued_begin_marker, Queued, Flags, Stream, StreamDef,
  retry_now, stream_item, begin_marker, may_close,
}
use bluewing_cpp_server.Stream.Write.{Result, write}
use bluewing_cpp_server.Stream.Close.{close}

-- lwp_stream_write_stream: a source waits in the back queue, or is linked, and the graph is read.
unfoldable pub write_stream : StreamDef → Stream → ℕ → Option ℕ → Bool → Bool → Bool → Stream
write_stream E s source size ignore_queue ignore_busy delete =
    if (not ignore_queue && (ltb 0 (length s.back_queue) || s.queueing))
      || (not ignore_busy && ltb 0 (length s.prev))
    then record s { back_queue = s.back_queue ++ stream_item source size delete ∷ [] }
    else E.read_graph (record s {
      prev = s.prev ++ record { from = source; bytes_left = size; delete_stream = delete } ∷ [];
    })

pub data Which : Type 0 where
  front back : Which

abbrev pub queue_of : Which → Stream → List Queued
queue_of front s = s.front_queue
queue_of back s = s.back_queue

abbrev pub put_queue : Which → List Queued → Stream → Stream
put_queue front queue s = record s { front_queue = queue }
put_queue back queue s = record s { back_queue = queue }

abbrev pub drain_flags : Flags
drain_flags = record {
  ignore_filters = false;
  ignore_busy = true;
  ignore_queue = true;
  partial = true;
}

-- One round for each item, and one to see that there is none.
abbrev pub enough : Stream → ℕ
enough s = suc (length s.front_queue + length s.back_queue)

-- lw_stream_begin_queue
unfoldable pub begin_queue : Stream → Stream
begin_queue s =
    if ltb 0 (length s.front_queue) || ltb 0 (length s.back_queue)
    then record s { back_queue = s.back_queue ++ begin_marker ∷ [] }
    else record s { queueing = true }

abbrev pub head_flags : Flags
head_flags = record {
  ignore_filters = false;
  ignore_busy = true;
  ignore_queue = true;
  partial = false;
}

module _ (E : StreamDef) where
  -- The write of the loop, which ignores the queue and so has nothing to retry.
  unfoldable pub write_item : Stream → Bytes → Result
  unfolding write
  write_item s buffer = write E some s buffer drain_flags

  -- The data of an item, with what is done next.
  unfoldable pub drain_data :
      Which → Stream → Queued → List Queued → (Stream → Option Stream) → Option Stream
  unfolding write_item
  drain_data w s q queue go_on =
      if ltb 0 (length q.buffer)
      then write_item s q.buffer >>= (λ (written, t).
        let left = drop written q.buffer in
        let rest = go_on (put_queue w queue t) in
        if ltb 0 (length left)
        then some (put_queue w (record q { buffer = left } ∷ queue) t)
        else rest)
      else go_on (put_queue w queue s)

  -- What is done with the first item, by its type.
  unfoldable pub drain_item :
      QueuedType → Which → Stream → Queued → List Queued → (Stream → Option Stream) → Option Stream
  unfolding drain_data write_stream
  drain_item queued_begin_marker w s q queue go_on =
      some (record (put_queue w queue s) { queueing = true })
  drain_item queued_data w s q queue go_on = drain_data w s q queue go_on
  drain_item queued_stream w s q queue go_on =
      go_on (
        write_stream E (put_queue w queue s) q.stream q.stream_bytes_left true false
          q.delete_stream)

  unfoldable pub drain_next :
      Which → Stream → List Queued → (Stream → Option Stream) → Option Stream
  unfolding drain_item
  drain_next w s [] go_on = some s
  drain_next w s (q ∷ queue) go_on = drain_item q.type w s q queue go_on

  -- lwp_stream_write_queue, on the queue where it stands in the stream.
  unfoldable pub write_queue : ℕ → Which → Stream → Option Stream
  unfolding drain_next
  write_queue zero w s = none
  write_queue (suc fuel) w s = drain_next w s (queue_of w s) (write_queue fuel w)

  -- What stands behind both queues in lwp_stream_write_queued.
  unfoldable pub after_queues : Stream → Option Stream
  unfolding close
  after_queues s =
      let closed = close E s true >>= (λ (t, _). some (record t { draining_queues = false })) in
      if s.close_asap && may_close s then closed else some (record s { draining_queues = false })

  -- The back queue, behind the front queue.
  unfoldable pub write_back_queue : Stream → Option Stream
  unfolding write_queue after_queues
  write_back_queue s =
      let drained =
        write_queue (enough s) back s >>= (λ t. if t.dead then some t else after_queues t) in
      if length s.front_queue == 0 && length s.prev == 0 then drained else after_queues s

  -- lwp_stream_write_queued
  unfoldable pub write_queued : Stream → Option Stream
  unfolding write_queue write_back_queue
  write_queued s =
      if s.queueing
      then some s
      else if s.draining_queues
      then some s
      else write_queue (enough s) front (record s { draining_queues = true })
        >>= (λ t. if t.dead then some t else write_back_queue t)

  -- lw_stream_retry, for a stream that no other writes to directly
  unfoldable pub retry : Stream → ℕ → Option Stream
  unfolding write_queued
  retry s when = if when == retry_now then write_queued s else some (record s { retry = when })

  -- lwp_stream_write, with its retry
  unfoldable pub lwp_stream_write : Stream → Bytes → Flags → Result
  unfolding write
  lwp_stream_write s buffer f = write E write_queued s buffer f

  -- lw_stream_end_queue; `none` is the failed assertion too.
  unfoldable pub end_queue : Stream → Option Stream
  end_queue s = if s.queueing then write_queued (record s { queueing = false }) else none

  -- lw_stream_end_queue_hb
  unfoldable pub end_queue_hb : Stream → List Bytes → Option Stream
  end_queue_hb s [] = end_queue s
  end_queue_hb s (buffer ∷ buffers) =
      lwp_stream_write s buffer head_flags >>= (λ (_, t). end_queue_hb t buffers)

-- What an item adds to lw_stream_queued, where 0 is a source that is gone: `none` is -1, where a source does not know what it has left.
unfoldable pub item_size : (ℕ → Option ℕ) → QueuedType → Queued → Option ℕ
item_size bytes_left queued_begin_marker q = some 0
item_size bytes_left queued_data q = some (length q.buffer)
item_size bytes_left queued_stream q =
    let left : Option ℕ = elim q.stream_bytes_left [
      | some n ↦ some n
      | none ↦ bytes_left q.stream
    ] in
    if q.stream == 0 then some 0 else left

-- The loop of lw_stream_queued, in size_t.
unfoldable pub queued_from : (ℕ → Option ℕ) → ℕ → List Queued → Option ℕ
unfolding item_size
queued_from bytes_left size [] = some size
queued_from bytes_left size (q ∷ queue) =
    item_size bytes_left q.type q >>= (λ n. queued_from bytes_left ((size + n) % 2 ^ 64) queue)

unfoldable pub queued : (ℕ → Option ℕ) → Stream → Option ℕ
unfolding queued_from
queued bytes_left s = queued_from bytes_left 0 s.back_queue
