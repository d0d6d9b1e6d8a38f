-- ===== src/Stream/Progress.antt =====
-- A sink that takes something of whatever it is given gets all the data in the end.
use bluewing_cpp_server.Prelude.{
  ℕ, zero, suc, ◌<◌, true, false, ◌&&◌, Option, none, some, List, [], ◌∷◌, ◌++◌, ◌==◌,
  if◌then◌else◌, ◌>>=◌, Bytes, length, ◌≡◌, refl, sym, arith, inl, inr, ◌⊎◌, All, ap, ◌∙◌,
  length-append, append-nil,
}
use bluewing_cpp_server.Stream.{Queued, Stream, StreamDef, transparent, retry_now}
use bluewing_cpp_server.Stream.Queue.{
  back, write_queue, enough, after_queues, write_back_queue, write_queued, retry,
}
use bluewing_cpp_server.Stream.Order.{waiting, IsOpen, IsData, Generous, Advances, Outcome, drained}
use bluewing_cpp_server.Stream.Rounds.{write_queue-Ends}
use bluewing_cpp_server.Stream.Drain.{contents, after_queues-open}
use bluewing_cpp_server.Stream.Started.{write_queued-started}
use bluewing_cpp_server.Stream.Free.{Free}
use bluewing_cpp_server.Stream.Traces.{
  Call, call_retry, written, call, run, run-Adds, MayRun, Behind,
}

abbrev from_some : Stream → Option Stream → Stream
from_some s none = s
from_some s (some t) = t

-- So many calls of lw_stream_retry with lw_stream_retry_now.
abbrev pub retries : ℕ → List Call
retries zero = []
retries (suc n) = call_retry retry_now ∷ retries n

written-retries : (n : ℕ) → written (retries n) ≡ []
written-retries zero = refl
written-retries (suc n) = written-retries n

-- A free stream that drains its queue, which holds data alone.
pub record Draining (s : Stream) : Type 0 where
  pub free : Free s
  pub not_queueing : s.queueing ≡ false
  pub only_data : All IsData s.back_queue

-- What is left to do.
abbrev pub left_of : Stream → ℕ
left_of s = length (waiting s.back_queue)

shorter :
    (o : Outcome) (queue : List Queued)
    → waiting queue ≡ o.bytes ++ waiting o.left
    → Advances o
    → o.queueing ≡ false
    → (o.left ≡ []) ⊎ (length (waiting o.left) < length (waiting queue))
shorter o queue e (inl done) q = inl done
shorter o queue e (inr (inl stopped)) q = absurd cc
shorter o queue e (inr (inr some_bytes)) q =
    let f : length (waiting queue) ≡ length (o.bytes ++ waiting o.left) = ap length e in
    inr (omega (arith, f, length-append o.bytes (waiting o.left)))

Behind_all : (o : Option Stream) (Q : Stream → Type 0) → ((s : Stream) → Q s) → Behind o Q
Behind_all none Q h = tt
Behind_all (some s) Q h = h s

each_retry : (E : StreamDef) (n : ℕ) (s : Stream) → MayRun E (retries n) s
unfolding MayRun
each_retry E zero s = tt
each_retry E (suc n) s =
    (tt, Behind_all (call E (call_retry retry_now) s) (MayRun E (retries n)) (each_retry E n))

module _ (E : StreamDef) (opaque_sink : transparent E.is_transparent ≡ false) where
  alone_back :
      (s : Stream)
      → s.front_queue ≡ []
      → s.prev ≡ []
      → write_back_queue E s
        ≡ (write_queue E (enough s) back s >>= (λ t. if t.dead then some t else after_queues E t))
  unfolding write_back_queue
  alone_back s e p =
      let both : (length s.front_queue == 0 && length s.prev == 0) ≡ true =
        ground (arith, ap length e, ap length p) in
      ap
        (λ b.
          if b
          then write_queue E (enough s) back s
            >>= (λ t. if t.dead then some t else after_queues E t)
          else after_queues E s)
        both

  drained-back :
      (s : Stream) (o : Outcome)
      → IsOpen s
      → write_queue E (enough s) back s ≡ some (drained back s o)
      → (write_queue E (enough s) back s >>= (λ t. if t.dead then some t else after_queues E t))
        ≡ some (record (drained back s o) { draining_queues = false })
  drained-back s o h r =
      ap (λ x. x >>= (λ t. if t.dead then some t else after_queues E t)) r
      ∙ ap (λ b. if b then some (drained back s o) else after_queues E (drained back s o)) h.0
      ∙ after_queues-open E opaque_sink (drained back s o) h.2

  -- One retry: the queue is empty, or shorter.
  retry_step :
      (s : Stream)
      → Generous E
      → Draining s
      → (t : Stream) × (write_queued E s ≡ some t)
        × Draining t
        × ((t.back_queue ≡ []) ⊎ (left_of t < left_of s))
  retry_step s g k =
      let started = record s { draining_queues = true } in
      let h = k.free.steady.opened in
      let (o, r, f, a, l, v, i) =
        write_queue-Ends E opaque_sink (enough started) back started s.back_queue h refl
          k.free.steady.back_stored (omega arith) in
      let (d, q) = i k.only_data in
      let t = record (drained back started o) { draining_queues = false } in
      let here : write_queued E s ≡ some t =
        write_queued-started E s k.not_queueing k.free.steady.idle k.free.no_front h.0
        ∙ alone_back started k.free.no_front k.free.alone
        ∙ drained-back started o h r in
      (
        t,
        here,
        record {
          free = record {
            steady = record {
              opened = h;
              idle = refl;
              front_stored = k.free.steady.front_stored;
              back_stored = a;
            };
            alone = k.free.alone;
            no_front = k.free.no_front;
          };
          not_queueing = q ∙ k.not_queueing;
          only_data = d;
        },
        shorter o s.back_queue f (v g) (q ∙ k.not_queueing),
      )

  abbrev pub Emptied : Option Stream → Type 0
  Emptied result = (t : Stream) × (result ≡ some t) × Draining t × (t.back_queue ≡ [])

  after_retry :
      (n : ℕ) (s t : Stream)
      → write_queued E s ≡ some t
      → run E (retries (suc n)) s ≡ run E (retries n) t
  unfolding run call retry
  after_retry n s t e = rw e refl

  stays_empty :
      (n : ℕ) (s : Stream)
      → Generous E
      → Draining s
      → s.back_queue ≡ []
      → Emptied (run E (retries n) s)
  unfolding run
  stays_empty zero s g k e = (s, refl, k, e)
  stays_empty (suc n) s g k e =
      let (t, r, l, d) = retry_step s g k in
      let z : left_of s ≡ 0 = ap (λ q. length (waiting q)) e in
      let f : t.back_queue ≡ [] = elim d [ inl done ↦ done | inr less ↦ absurd (omega arith) ] in
      let (u, q, m, h) = stays_empty n t g l f in (u, after_retry n s t r ∙ q, m, h)

  becomes_empty :
      (n : ℕ) (s : Stream) → Generous E → Draining s → left_of s < n → Emptied (run E (retries n) s)
  becomes_empty zero s g k p = absurd (omega arith)
  becomes_empty (suc n) s g k p =
      let (t, r, l, d) = retry_step s g k in
      let rest : Emptied (run E (retries n) t) = elim d [
        | inl done ↦ stays_empty n t g l done
        | inr less ↦ becomes_empty n t g l (omega arith)
      ] in
      (rest.0, after_retry n s t r ∙ rest.1, rest.2, rest.3)

  no_queues :
      (a : Bytes) (front_queue back_queue : List Queued)
      → front_queue ≡ []
      → back_queue ≡ []
      → a ++ (waiting front_queue ++ waiting back_queue) ≡ a
  no_queues a front_queue back_queue e f = rw (e, f) (append-nil a)

  -- On a stream that is not transparent, is open (neither dead, closing nor waiting to close), has no
  -- filter, is neither queueing nor draining, and has no source linked, an empty front queue and nothing
  -- but data in the back queue: where the sink takes something of whatever it is given, more retries than
  -- bytes wait empty the queue, and the sink then has all of them, in order.
  pub retries-empty :
      (n : ℕ) (s : Stream)
      → Generous E
      → Draining s
      → left_of s < n
      → (t : Stream) × (run E (retries n) s ≡ some t)
        × (t.back_queue ≡ [])
        × (t.sunk ≡ s.sunk ++ waiting s.back_queue)
  retries-empty n s g k p =
      let (t, r, l, e) = becomes_empty n s g k p in
      let (u, q, f, c) = run-Adds E opaque_sink (retries n) s k.free (each_retry E n s) in
      (
        t,
        r,
        e,
        sym (no_queues t.sunk t.front_queue t.back_queue l.free.no_front e)
            ∙ ap (λ o. contents (from_some s o)) (sym r ∙ q)
            ∙ c
            ∙ ap (λ b. contents s ++ b) (written-retries n)
            ∙ append-nil (contents s)
            ∙ ap (λ items. s.sunk ++ (waiting items ++ waiting s.back_queue)) k.free.no_front,
      )
