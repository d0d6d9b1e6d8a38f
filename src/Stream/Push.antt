-- ===== src/Stream/Push.antt =====
-- A stream that a source writes to: what the source hands over, and what other calls write meanwhile.
use bluewing_cpp_server.Prelude.{
  ℕ, ◌<◌, Bool, true, false, Option, some, [], ◌++◌, ltb, ◌==◌, if◌then◌else◌, Bytes, length, take,
  drop, ◌≡◌, refl, sym, arith, inl, inr, Bool-cases, ap, ◌∙◌, subst, nil_of_length, lt→ltb, ltb→lt,
  append_assoc, append-nil, take-append-drop, take_all,
}
use bluewing_cpp_server.Stream.{
  Flags, Stream, StreamDef, transparent, takes, retry_more_data, sink, queue_front, queue_back,
}
use bluewing_cpp_server.Stream.Write.{Result, queued_more, write, write_busy}
use bluewing_cpp_server.Stream.Queue.{write_queued, lwp_stream_write}
use bluewing_cpp_server.Stream.Order.{waiting, waiting-queue_data, IsOpen}
use bluewing_cpp_server.Stream.Drain.{contents, Steady, write_queued-Keeps}
use bluewing_cpp_server.Stream.Free.{plain, sunk, All-IsStored-queue_data}

-- What a source that is linked hands over, as lwp_stream_push writes it.
abbrev pub pushed : Flags
pushed = record { ignore_filters = true; ignore_busy = true; ignore_queue = false; partial = false }

-- What stands before the data that other calls have written since the source was linked.
abbrev pub ahead : Stream → Bytes
ahead s = s.sunk ++ waiting s.front_queue

some_if :
    (c : Bool) (n : ℕ) (x y : Stream)
    → if◌then◌else◌ {A = Result} c (some (n, x)) (some (n, y)) ≡ some (n, if c then x else y)
some_if true n x y = refl
some_if false n x y = refl

contents-queue_front :
    (s : Stream) (bytes : Bytes)
    → contents (queue_front s bytes) ≡ (ahead s ++ bytes) ++ waiting s.back_queue
unfolding queue_front
contents-queue_front s bytes = rw (waiting-queue_data s.front_queue bytes) (
    sym (
      append_assoc (s.sunk ++ waiting s.front_queue) bytes (waiting s.back_queue)
      ∙ append_assoc s.sunk (waiting s.front_queue) (bytes ++ waiting s.back_queue)
      ∙ ap (λ b. s.sunk ++ b)
          (sym (append_assoc (waiting s.front_queue) bytes (waiting s.back_queue)))))

prev-queue_front : (s : Stream) (bytes : Bytes) → (queue_front s bytes).prev ≡ s.prev
unfolding queue_front
prev-queue_front s bytes = refl

Steady-queue_front : (s : Stream) (bytes : Bytes) → Steady s → Steady (queue_front s bytes)
unfolding queue_front
Steady-queue_front s bytes k = record {
  opened = k.opened;
  idle = k.idle;
  front_stored = All-IsStored-queue_data s.front_queue bytes k.front_stored;
  back_stored = k.back_stored;
}

prev-sunk : (E : StreamDef) (s : Stream) (bytes : Bytes) → (sunk E s bytes).prev ≡ s.prev
unfolding sunk sink
prev-sunk E s bytes = refl

sunk-Steady : (E : StreamDef) (s : Stream) (bytes : Bytes) → Steady s → Steady (sunk E s bytes)
unfolding sunk sink
sunk-Steady E s bytes k = record {
  opened = k.opened;
  idle = k.idle;
  front_stored = k.front_stored;
  back_stored = k.back_stored;
}

swap_ends : (a x b : Bytes) → b ≡ [] → (a ++ x) ++ b ≡ (a ++ b) ++ x
swap_ends a x b e = rw (e, append-nil (a ++ x), append-nil a) refl

ahead-sunk :
    (E : StreamDef) (s : Stream) (bytes : Bytes)
    → s.front_queue ≡ []
    → ahead (sunk E s bytes) ≡ ahead s ++ take (takes E.sink_data s.sinks bytes) bytes
unfolding sunk sink
ahead-sunk E s bytes e =
    swap_ends s.sunk (take (takes E.sink_data s.sinks bytes) bytes) (waiting s.front_queue)
      (ap waiting e)

back-sunk :
    (E : StreamDef) (s : Stream) (bytes : Bytes) → (sunk E s bytes).back_queue ≡ s.back_queue
unfolding sunk sink
back-sunk E s bytes = refl

module _ (E : StreamDef) (opaque_sink : transparent E.is_transparent ≡ false) where
  abbrev pub Pushes : Result → Stream → Bytes → Type 0
  Pushes result s bytes =
      (t : Stream) × (result ≡ some (length bytes, t))
      × Steady t
      × (t.prev ≡ s.prev)
      × (contents t ≡ (ahead s ++ bytes) ++ waiting s.back_queue)

  push_busy :
      (again : Stream → Option Stream) (s : Stream) (bytes : Bytes)
      → IsOpen s
      → 0 < length s.prev
      → 0 < length bytes
      → write E again s bytes pushed ≡ write_busy E again s bytes pushed
  unfolding write
  push_busy again s bytes h p l = ground (arith, h)

  push_queued :
      (again : Stream → Option Stream) (s : Stream) (bytes : Bytes)
      → 0 < length s.front_queue
      → write_busy E again s bytes pushed ≡ queued_more E again (length bytes) (queue_front s bytes)
  unfolding write_busy
  push_queued again s bytes p = rw (lt→ltb 0 (length s.front_queue) p) refl

  push_sunk :
      (again : Stream → Option Stream) (s : Stream) (bytes : Bytes)
      → ltb 0 (length s.front_queue) ≡ false
      → let n = takes E.sink_data s.sinks bytes in
        write_busy E again s bytes pushed
        ≡ some (
          length bytes,
          if ltb n (length bytes)
              then queue_front (sunk E s bytes) (drop n bytes)
              else sunk E s bytes,
        )
  unfolding write_busy sink sunk
  push_sunk again s bytes e =
      rw (e, opaque_sink)
        (some_if (ltb (takes E.sink_data s.sinks bytes) (length bytes)) (length bytes)
          (queue_front (sunk E s bytes) (drop (takes E.sink_data s.sinks bytes) bytes))
          (sunk E s bytes))

  pushed_more :
      (s : Stream) (bytes : Bytes)
      → Steady s
      → Pushes (queued_more E (write_queued E) (length bytes) (queue_front s bytes)) s bytes
  unfolding queued_more
  pushed_more s bytes k =
      let q = queue_front s bytes in
      let j = Steady-queue_front s bytes k in
      elim (Bool-cases (q.retry == retry_more_data)) [
        | inr quiet ↦ rw quiet (q, refl, j, prev-queue_front s bytes, contents-queue_front s bytes)
        | inl again ↦
            let (t, r, l, c, p, f) = write_queued-Keeps E opaque_sink q j in
            rw (again, r)
              (t, refl, l, p ∙ prev-queue_front s bytes, c ∙ contents-queue_front s bytes)
      ]

  pushed_sunk :
      (s : Stream) (bytes : Bytes)
      → Steady s
      → s.front_queue ≡ []
      → let n = takes E.sink_data s.sinks bytes in
        Pushes
          (some (
            length bytes,
            if ltb n (length bytes)
                then queue_front (sunk E s bytes) (drop n bytes)
                else sunk E s bytes,
          ))
          s
          bytes
  pushed_sunk s bytes k e =
      let n = takes E.sink_data s.sinks bytes in
      let t = sunk E s bytes in
      let c = ahead-sunk E s bytes e in
      elim (Bool-cases (ltb n (length bytes))) [
        | inl part ↦ rw part (
          queue_front t (drop n bytes),
          refl,
          Steady-queue_front t (drop n bytes) (sunk-Steady E s bytes k),
          prev-queue_front t (drop n bytes) ∙ prev-sunk E s bytes,
          contents-queue_front t (drop n bytes)
              ∙ ap (λ b. (ahead t ++ drop n bytes) ++ waiting b) (back-sunk E s bytes)
              ∙ ap (λ b. (b ++ drop n bytes) ++ waiting s.back_queue) c
              ∙ ap (λ b. b ++ waiting s.back_queue)
                  (append_assoc (ahead s) (take n bytes) (drop n bytes)
                    ∙ ap (λ b. ahead s ++ b) (take-append-drop n bytes)),
        )
        | inr whole ↦ rw whole (
          t,
          refl,
          sunk-Steady E s bytes k,
          prev-sunk E s bytes,
          sym (append_assoc t.sunk (waiting t.front_queue) (waiting t.back_queue))
              ∙ ap (λ b. ahead t ++ waiting b) (back-sunk E s bytes)
              ∙ ap (λ b. b ++ waiting s.back_queue)
                  (c ∙ ap (λ b. ahead s ++ b) (take_all n bytes (ground (arith, whole)))),
        )
      ]

  -- On a stream that is not transparent, is open (neither dead, closing nor waiting to close), has no
  -- filter, is not draining, and has no source in either queue: while a source is linked, what it hands
  -- over (some bytes) comes back with its size, and stands behind all that it handed over before and in
  -- front of what other calls have put into the back queue.
  pub push-Pushes :
      (s : Stream) (bytes : Bytes)
      → Steady s
      → 0 < length s.prev
      → 0 < length bytes
      → Pushes (lwp_stream_write E s bytes pushed) s bytes
  unfolding lwp_stream_write
  push-Pushes s bytes k p l =
      subst (λ r. Pushes r s bytes) (sym (push_busy (write_queued E) s bytes k.opened p l))
        (elim (Bool-cases (ltb 0 (length s.front_queue))) [
          | inl waits ↦
              subst (λ r. Pushes r s bytes)
                (sym (push_queued (write_queued E) s bytes (ltb→lt 0 (length s.front_queue) waits)))
                (pushed_more s bytes k)
          | inr direct ↦
              subst (λ r. Pushes r s bytes) (sym (push_sunk (write_queued E) s bytes direct))
                (pushed_sunk s bytes k (nil_of_length s.front_queue (ground (arith, direct))))
        ])

  -- Any other write while a source is linked waits in the back queue.
  pub write_meanwhile :
      (s : Stream) (bytes : Bytes)
      → IsOpen s
      → 0 < length s.prev
      → lwp_stream_write E s bytes plain
        ≡ some (length bytes, if ltb 0 (length bytes) then queue_back s bytes else s)
  unfolding lwp_stream_write write write_busy
  write_meanwhile s bytes h p = ground (arith, h)
