-- ===== src/Stream/Traces.antt =====
-- What a program that writes to a stream sees: any calls of lw_stream_write, lw_stream_retry,
-- lw_stream_begin_queue and lw_stream_end_queue, in any order.
use bluewing_cpp_server.Prelude.{
  ℕ, Bool, true, false, ◌||◌, Option, none, some, List, [], ◌∷◌, ◌++◌, ltb, ◌==◌, if◌then◌else◌,
  ◌>>=◌, Bytes, length, ◌≡◌, refl, sym, inl, inr, All, Bool-cases, append_assoc, append-nil, ap,
  ◌∙◌, subst,
}
use bluewing_cpp_server.Stream.{Queued, Stream, StreamDef, begin_marker, transparent, retry_now}
use bluewing_cpp_server.Stream.Queue.{write_queued, retry, lwp_stream_write, begin_queue, end_queue}
use bluewing_cpp_server.Stream.Order.{waiting, IsStored}
use bluewing_cpp_server.Stream.Drain.{contents, write_queued-Keeps}
use bluewing_cpp_server.Stream.Free.{plain, Free, Adds, Keeps-Adds}
use bluewing_cpp_server.Stream.Plain.{write-Writes}

pub data Call : Type 0 where
  call_write : Bytes → Call
  call_retry : ℕ → Call
  call_begin_queue call_end_queue : Call

-- What is written in these calls.
abbrev pub written : List Call → Bytes
written [] = []
written (call_write bytes ∷ calls) = bytes ++ written calls
written (call_retry when ∷ calls) = written calls
written (call_begin_queue ∷ calls) = written calls
written (call_end_queue ∷ calls) = written calls

written_one :
    (c : Call) (calls : List Call) → written (c ∷ []) ++ written calls ≡ written (c ∷ calls)
written_one (call_write bytes) calls = rw (append-nil bytes) refl
written_one (call_retry when) calls = refl
written_one call_begin_queue calls = refl
written_one call_end_queue calls = refl

waiting-marker : (queue : List Queued) → waiting (queue ++ begin_marker ∷ []) ≡ waiting queue
waiting-marker [] = refl
waiting-marker (q ∷ queue) = rw (waiting-marker queue) refl

All-IsStored-marker :
    (queue : List Queued) → All IsStored queue → All IsStored (queue ++ begin_marker ∷ [])
All-IsStored-marker [] a = (λ e. cc, tt)
All-IsStored-marker (q ∷ queue) a = (a.0, All-IsStored-marker queue a.1)

abbrev pub Behind : Option Stream → (Stream → Type 0) → Type 0
Behind none Q = Unit
Behind (some s) Q = Q s

-- A queue is only ended where one has begun, as lw_stream_end_queue asserts.
abbrev pub MayCall : Call → Stream → Type 0
MayCall (call_write bytes) s = Unit
MayCall (call_retry when) s = Unit
MayCall call_begin_queue s = Unit
MayCall call_end_queue s = s.queueing ≡ true

module _ (E : StreamDef) where
  -- `none` is a failed assertion too.
  unfoldable pub call : Call → Stream → Option Stream
  call (call_write bytes) s = lwp_stream_write E s bytes plain >>= (λ (_, t). some t)
  call (call_retry when) s = retry E s when
  call call_begin_queue s = some (begin_queue s)
  call call_end_queue s = end_queue E s

  unfoldable pub run : List Call → Stream → Option Stream
  unfolding call
  run [] s = some s
  run (c ∷ calls) s = call c s >>= run calls

  unfoldable pub MayRun : List Call → Stream → Type 0
  unfolding call
  MayRun [] s = Unit
  MayRun (c ∷ calls) s = MayCall c s × Behind (call c s) (MayRun calls)

module _ (E : StreamDef) (opaque_sink : transparent E.is_transparent ≡ false) where
  queued-Adds : (s : Stream) → Free s → Adds (write_queued E s) s []
  queued-Adds s f = Keeps-Adds (write_queued E s) s f (write_queued-Keeps E opaque_sink s f.steady)

  same-Adds : (s t : Stream) → Free t → contents t ≡ contents s → Adds (some t) s []
  same-Adds s t f c = (t, refl, f, c ∙ sym (append-nil (contents s)))

  Adds-if :
      (b : Bool) (s : Stream) (bytes : Bytes) (x y : Option Stream)
      → Adds x s bytes
      → Adds y s bytes
      → Adds (if b then x else y) s bytes
  Adds-if true s bytes x y k l = k
  Adds-if false s bytes x y k l = l

  marked : Stream → Stream
  marked s = record s { back_queue = s.back_queue ++ begin_marker ∷ [] }

  marked-Adds : (s : Stream) → Free s → Adds (some (marked s)) s []
  unfolding marked
  marked-Adds s f =
      same-Adds s (marked s)
        (record {
          steady = record {
            opened = f.steady.opened;
            idle = f.steady.idle;
            front_stored = f.steady.front_stored;
            back_stored = All-IsStored-marker s.back_queue f.steady.back_stored;
          };
          alone = f.alone;
          no_front = f.no_front;
        })
        (ap (λ b. s.sunk ++ (waiting s.front_queue ++ b)) (waiting-marker s.back_queue))

  flagged-Free :
      (s : Stream) (queueing : Bool) (when : ℕ)
      → Free s
      → Free (record s { queueing = queueing; retry = when })
  flagged-Free s queueing when f = record {
    steady = record {
      opened = f.steady.opened;
      idle = f.steady.idle;
      front_stored = f.steady.front_stored;
      back_stored = f.steady.back_stored;
    };
    alone = f.alone;
    no_front = f.no_front;
  }

  begin_queue-Adds : (s : Stream) → Free s → Adds (some (begin_queue s)) s []
  unfolding begin_queue marked
  begin_queue-Adds s f =
      elim (Bool-cases (ltb 0 (length s.front_queue) || ltb 0 (length s.back_queue))) [
        | inl waits ↦ rw waits (marked-Adds s f)
        | inr empty ↦
            rw empty
              (same-Adds s (record s { queueing = true }) (flagged-Free s true s.retry f) refl)
      ]

  end_begun :
      (s : Stream)
      → s.queueing ≡ true
      → end_queue E s ≡ write_queued E (record s { queueing = false })
  unfolding end_queue
  end_begun s begun =
      ap (λ b. if b then write_queued E (record s { queueing = false }) else none) begun

  end_queue-Adds : (s : Stream) → Free s → s.queueing ≡ true → Adds (end_queue E s) s []
  end_queue-Adds s f begun =
      subst (λ r. Adds r s []) (sym (end_begun s begun))
        (queued-Adds (record s { queueing = false }) (flagged-Free s false s.retry f))

  retry-Adds : (s : Stream) (when : ℕ) → Free s → Adds (retry E s when) s []
  unfolding retry
  retry-Adds s when f =
      Adds-if (when == retry_now) s [] (write_queued E s) (some (record s { retry = when }))
        (queued-Adds s f)
        (same-Adds s (record s { retry = when }) (flagged-Free s s.queueing when f) refl)

  call-Adds :
      (c : Call) (s : Stream) → Free s → MayCall c s → Adds (call E c s) s (written (c ∷ []))
  unfolding call
  call-Adds (call_write bytes) s f m =
      let (t, r, g, c) = write-Writes E opaque_sink s bytes f in
      rw r (t, refl, g, rw (append-nil bytes) c)
  call-Adds (call_retry when) s f m = retry-Adds s when f
  call-Adds call_begin_queue s f m = begin_queue-Adds s f
  call-Adds call_end_queue s f m = end_queue-Adds s f m

  -- On a stream that is not transparent, is open (neither dead, closing nor waiting to close), has no
  -- filter and is not draining, with no source linked or queued and an empty front queue: in any calls
  -- that write to it, retry it, or begin or end a queue, a queue being ended only where one has begun,
  -- every call comes back, and what the sink has taken, followed by what waits for it, is what the stream
  -- had before with everything that was written behind it, in order.
  pub run-Adds :
      (calls : List Call) (s : Stream)
      → Free s
      → MayRun E calls s
      → Adds (run E calls s) s (written calls)
  unfolding run MayRun
  run-Adds [] s f m = same-Adds s s f refl
  run-Adds (c ∷ calls) s f m =
      let (t, r, g, d) = call-Adds c s f m.0 in
      let (u, q, h, e) = run-Adds calls t g (subst (λ o. Behind o (MayRun E calls)) r m.1) in
      rw r (
        u,
        q,
        h,
        e
            ∙ ap (λ b. b ++ written calls) d
            ∙ append_assoc (contents s) (written (c ∷ [])) (written calls)
            ∙ ap (λ b. contents s ++ b) (written_one c calls),
      )
