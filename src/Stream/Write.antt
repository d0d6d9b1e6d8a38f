-- ===== src/Stream/Write.antt =====
-- lwp_stream_write. The result is what it returns with the stream behind it, and `none` where the
-- code reads through a null pointer. Its call of lw_stream_retry is an argument.
use bluewing_cpp_server.Prelude.{
  ℕ, not, ◌&&◌, ◌||◌, Option, none, some, List, [], ◌∷◌, ◌++◌, ltb, ◌==◌, if◌then◌else◌, ◌>>=◌,
  Bytes, length, take, drop,
}
use bluewing_cpp_server.Stream.{
  Queued, Flags, Stream, StreamDef, retry_more_data, data_item, queue_back, queue_front,
  transparent, sink, pass,
}

-- The rest of a write that ignores the queue goes in front of it; there is no first item to look at
-- in an empty queue.
unfoldable pub put_back : List Queued → Bytes → Option (List Queued)
put_back [] rest = none
put_back (q ∷ queue) rest =
    if length q.buffer == 0
    then some (record q { buffer = q.buffer ++ rest } ∷ queue)
    else some (data_item rest ∷ q ∷ queue)

-- A write that is refused or queued for now.
abbrev pub Result : Type 0
Result = Option (ℕ × Stream)

module _ (E : StreamDef) where
  -- A write that the first upstream filter gets.
  unfoldable pub write_filter : Stream → Bytes → Flags → Result
  write_filter s buffer f =
      let n = if f.partial then E.filter_takes buffer else length buffer in
      some (n, record s { filtered = s.filtered ++ take n buffer })

module _ (E : StreamDef) (retry : Stream → Option Stream) where
  -- Behind a write that was queued.
  unfoldable pub queued_more : ℕ → Stream → Result
  queued_more size s =
      let again = retry s >>= (λ t. some (size, t)) in
      if s.retry == retry_more_data then again else some (size, s)

  -- The branch for a stream that something is behind.
  unfoldable pub write_busy : Stream → Bytes → Flags → Result
  unfolding sink
  write_busy s buffer f =
      let (written, t) = sink E s buffer in
      if not f.ignore_busy
      then (if f.partial then some (0, s) else some (length buffer, queue_back s buffer))
      else if not f.ignore_queue && ltb 0 (length s.front_queue)
      then (if f.partial then some (0, s) else queued_more (length buffer) (queue_front s buffer))
      else if transparent E.is_transparent
      then some (length buffer, pass s buffer)
      else if f.partial
      then some (written, t)
      else if ltb written (length buffer)
      then some (length buffer, queue_front t (drop written buffer))
      else some (length buffer, t)

  -- The branch for one that nothing is behind.
  unfoldable pub write_free : Stream → Bytes → Flags → Result
  unfolding sink
  write_free s buffer f =
      let (written, t) = sink E s buffer in
      let back =
        put_back t.back_queue (drop written buffer)
        >>= (λ queue. some (length buffer, record t { back_queue = queue })) in
      if not f.ignore_queue && (s.queueing || ltb 0 (length s.back_queue))
      then (if f.partial then some (0, s) else queued_more (length buffer) (queue_back s buffer))
      else if transparent E.is_transparent
      then some (length buffer, pass s buffer)
      else if f.partial
      then some (written, t)
      else if not (ltb written (length buffer))
      then some (length buffer, t)
      else if f.ignore_queue
      then back
      else some (length buffer, queue_back t (drop written buffer))

  unfoldable pub write : Stream → Bytes → Flags → Result
  write s buffer f =
      if s.dead || s.closing || s.close_asap
      then some (0, s)
      else if length buffer == 0
      then some (0, s)
      else if not f.ignore_filters && s.head_upstream
      then write_filter E s buffer f
      else if ltb 0 (length s.prev)
      then write_busy s buffer f
      else write_free s buffer f
