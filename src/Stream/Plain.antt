-- ===== src/Stream/Plain.antt =====
-- lw_stream_write on a stream that no source writes to.
use bluewing_cpp_server.Prelude.{
  ◌<◌, true, false, ◌||◌, Option, some, [], ◌++◌, ltb, ◌==◌, if◌then◌else◌, Bytes, length, take,
  drop, ◌≡◌, refl, sym, arith, inl, inr, Bool-cases, ltb→lt, append_assoc, append-nil,
  take-append-drop, take_all, nil_of_length, ap, ◌∙◌, subst,
}
use bluewing_cpp_server.Stream.{
  Stream, StreamDef, queue_back, transparent, takes, sink, retry_more_data,
}
use bluewing_cpp_server.Stream.Write.{queued_more, write_free, write}
use bluewing_cpp_server.Stream.Queue.{write_queued, lwp_stream_write}
use bluewing_cpp_server.Stream.Order.{IsOpen}
use bluewing_cpp_server.Stream.Drain.{contents, write_queued-Keeps}
use bluewing_cpp_server.Stream.Free.{
  plain, Free, Writes, Keeps-Adds, contents-queue_back, Free-queue_back, sunk, if_not,
  contents-sunk,
}

module _ (E : StreamDef) (opaque_sink : transparent E.is_transparent ≡ false) where
  pub write_alone :
      (again : Stream → Option Stream) (s : Stream) (bytes : Bytes)
      → IsOpen s
      → s.prev ≡ []
      → 0 < length bytes
      → write E again s bytes plain ≡ write_free E again s bytes plain
  unfolding write
  write_alone again s bytes h e p = ground (arith, h, ap length e)

  write_nothing :
      (again : Stream → Option Stream) (s : Stream) (bytes : Bytes)
      → Free s
      → length bytes ≡ 0
      → write E again s bytes plain ≡ some (0, s)
  unfolding write
  write_nothing again s bytes f p = ground (arith)

  write_free_queued :
      (again : Stream → Option Stream) (s : Stream) (bytes : Bytes)
      → (s.queueing || ltb 0 (length s.back_queue)) ≡ true
      → write_free E again s bytes plain ≡ queued_more E again (length bytes) (queue_back s bytes)
  unfolding write_free
  write_free_queued again s bytes e = rw e refl

  pub write_free_sunk :
      (again : Stream → Option Stream) (s : Stream) (bytes : Bytes)
      → (s.queueing || ltb 0 (length s.back_queue)) ≡ false
      → let n = takes E.sink_data s.sinks bytes in
        write_free E again s bytes plain
        ≡ some (
          length bytes,
          if ltb n (length bytes)
              then queue_back (sunk E s bytes) (drop n bytes)
              else sunk E s bytes,
        )
  unfolding write_free sunk sink
  write_free_sunk again s bytes e = rw e (
      rw opaque_sink (
        if_not (ltb (takes E.sink_data s.sinks bytes) (length bytes)) (length bytes)
          (queue_back (sunk E s bytes) (drop (takes E.sink_data s.sinks bytes) bytes))
          (sunk E s bytes)))

  queued_more-Writes :
      (s : Stream) (bytes : Bytes)
      → Free s
      → Writes (queued_more E (write_queued E) (length bytes) (queue_back s bytes)) s bytes
  unfolding queued_more
  queued_more-Writes s bytes f =
      let q = queue_back s bytes in
      let g = Free-queue_back s bytes f in
      elim (Bool-cases (q.retry == retry_more_data)) [
        | inr quiet ↦ rw quiet (q, refl, g, contents-queue_back s bytes)
        | inl again ↦
            let (t, r, h, c) =
              Keeps-Adds (write_queued E q) q g (write_queued-Keeps E opaque_sink q g.steady) in
            rw (again, r) (t, refl, h, c ∙ append-nil (contents q) ∙ contents-queue_back s bytes)
      ]

  sunk-Free : (s : Stream) (bytes : Bytes) → Free s → Free (sunk E s bytes)
  unfolding sunk sink
  sunk-Free s bytes f = record {
    steady = record {
      opened = f.steady.opened;
      idle = f.steady.idle;
      front_stored = f.steady.front_stored;
      back_stored = f.steady.back_stored;
    };
    alone = f.alone;
    no_front = f.no_front;
  }

  sunk-Writes :
      (s : Stream) (bytes : Bytes)
      → Free s
      → s.back_queue ≡ []
      → let n = takes E.sink_data s.sinks bytes in
        Writes
          (some (
            length bytes,
            if ltb n (length bytes)
                then queue_back (sunk E s bytes) (drop n bytes)
                else sunk E s bytes,
          ))
          s
          bytes
  sunk-Writes s bytes f e =
      let n = takes E.sink_data s.sinks bytes in
      let t = sunk E s bytes in
      let c = contents-sunk E s bytes f.no_front e in
      elim (Bool-cases (ltb n (length bytes))) [
        | inl part ↦ rw part (
          queue_back t (drop n bytes),
          refl,
          Free-queue_back t (drop n bytes) (sunk-Free s bytes f),
          contents-queue_back t (drop n bytes)
              ∙ ap (λ b. b ++ drop n bytes) c
              ∙ append_assoc (contents s) (take n bytes) (drop n bytes)
              ∙ ap (λ b. contents s ++ b) (take-append-drop n bytes),
        )
        | inr whole ↦ rw whole (
          t,
          refl,
          sunk-Free s bytes f,
          c ∙ ap (λ b. contents s ++ b) (take_all n bytes (ground (arith, whole))),
        )
      ]

  write_busy_queue :
      (s : Stream) (bytes : Bytes)
      → Free s
      → Writes (write_free E (write_queued E) s bytes plain) s bytes
  write_busy_queue s bytes f = elim (Bool-cases (s.queueing || ltb 0 (length s.back_queue))) [
    | inl waits ↦
        subst (λ r. Writes r s bytes) (sym (write_free_queued (write_queued E) s bytes waits))
          (queued_more-Writes s bytes f)
    | inr none_waits ↦
        subst (λ r. Writes r s bytes) (sym (write_free_sunk (write_queued E) s bytes none_waits))
          (sunk-Writes s bytes f (nil_of_length s.back_queue (ground (arith, none_waits))))
  ]

  nothing-Writes :
      (s : Stream) (bytes : Bytes) → Free s → length bytes ≡ 0 → Writes (some (0, s)) s bytes
  nothing-Writes s bytes f e =
      rw (nil_of_length bytes e) (s, refl, f, sym (append-nil (contents s)))

  -- A write comes back with its size, and its bytes stand behind those that the stream had.
  pub write-Writes :
      (s : Stream) (bytes : Bytes) → Free s → Writes (lwp_stream_write E s bytes plain) s bytes
  unfolding lwp_stream_write
  write-Writes s bytes f = elim (Bool-cases (ltb 0 (length bytes))) [
    | inl some_bytes ↦
        subst (λ r. Writes r s bytes)
          (sym (
            write_alone (write_queued E) s bytes f.steady.opened f.alone
              (ltb→lt 0 (length bytes) some_bytes)))
          (write_busy_queue s bytes f)
    | inr no_bytes ↦
        let e : length bytes ≡ 0 = ground (arith, no_bytes) in
        subst (λ r. Writes r s bytes) (sym (write_nothing (write_queued E) s bytes f e))
          (nothing-Writes s bytes f e)
  ]
