-- ===== src/Stream/Drain.antt =====
-- lwp_stream_write_queued on a stream whose queues hold data and markers, without a source.
use bluewing_cpp_server.Prelude.{
  Bool, true, false, ◌&&◌, Option, some, [], ◌++◌, ◌==◌, if◌then◌else◌, ◌>>=◌, Bytes, length, ◌≡◌,
  refl, sym, arith, inl, inr, All, Bool-cases, append_assoc, nil_of_length, ap, ◌∙◌, subst,
}
use bluewing_cpp_server.Stream.{Stream, StreamDef, transparent}
use bluewing_cpp_server.Stream.Queue.{
  front, back, write_queue, enough, after_queues, write_back_queue, write_queued,
}
use bluewing_cpp_server.Stream.Order.{waiting, IsStored, IsOpen, Outcome, drained, Ends}
use bluewing_cpp_server.Stream.Rounds.{write_queue-Ends}

-- What the sink has taken, then what waits for it.
abbrev pub contents : Stream → Bytes
contents s = s.sunk ++ (waiting s.front_queue ++ waiting s.back_queue)

-- A stream that is not draining, and whose queues hold no source.
pub record Steady (s : Stream) : Type 0 where
  pub opened : IsOpen s
  pub idle : s.draining_queues ≡ false
  pub front_stored : All IsStored s.front_queue
  pub back_stored : All IsStored s.back_queue

-- The call comes back, with the same data in the same order.
abbrev pub Keeps : Option Stream → Stream → Type 0
Keeps result s =
    (t : Stream) × (result ≡ some t)
    × Steady t
    × (contents t ≡ contents s)
    × (t.prev ≡ s.prev)
    × (s.front_queue ≡ [] → t.front_queue ≡ [])

regroup :
    (sunk bytes left whole behind : Bytes)
    → whole ≡ bytes ++ left
    → (sunk ++ bytes) ++ (left ++ behind) ≡ sunk ++ (whole ++ behind)
regroup sunk bytes left whole behind e =
    append_assoc sunk bytes (left ++ behind)
    ∙ ap (λ b. sunk ++ b) (sym (append_assoc bytes left behind) ∙ ap (λ b. b ++ behind) (sym e))

regroup_back :
    (sunk bytes left whole before : Bytes)
    → whole ≡ bytes ++ left
    → before ≡ []
    → (sunk ++ bytes) ++ (before ++ left) ≡ sunk ++ (before ++ whole)
regroup_back sunk bytes left whole before e n =
    subst (λ b. (sunk ++ bytes) ++ (b ++ left) ≡ sunk ++ (b ++ whole)) (sym n)
      (append_assoc sunk bytes left ∙ ap (λ b. sunk ++ b) (sym e))

contents-front :
    (s : Stream) (o : Outcome)
    → waiting s.front_queue ≡ o.bytes ++ waiting o.left
    → contents (drained front s o) ≡ contents s
contents-front s o e =
    regroup s.sunk o.bytes (waiting o.left) (waiting s.front_queue) (waiting s.back_queue) e

contents-back :
    (s : Stream) (o : Outcome)
    → s.front_queue ≡ []
    → waiting s.back_queue ≡ o.bytes ++ waiting o.left
    → contents (drained back s o) ≡ contents s
contents-back s o none_front e =
    regroup_back s.sunk o.bytes (waiting o.left) (waiting s.back_queue) (waiting s.front_queue) e
      (ap waiting none_front)

Keeps-via :
    (result : Option Stream) (s t : Stream)
    → (contents t ≡ contents s)
    → (t.prev ≡ s.prev)
    → (s.front_queue ≡ [] → t.front_queue ≡ [])
    → Keeps result t
    → Keeps result s
Keeps-via result s t c p f (u, r, k, d, q, g) = (u, r, k, d ∙ c, q ∙ p, λ e. g (f e))

Keeps-if :
    (b : Bool) (s : Stream) (x y : Option Stream)
    → Keeps x s
    → Keeps y s
    → Keeps (if b then x else y) s
Keeps-if true s x y k l = k
Keeps-if false s x y k l = l

Keeps-some : (s : Stream) → Steady s → Keeps (some s) s
Keeps-some s k = (s, refl, k, refl, refl, λ e. e)

Keeps-alive :
    (dead : Bool) (s t : Stream) (next : Option Stream)
    → dead ≡ false
    → Keeps next s
    → Keeps (if dead then some t else next) s
Keeps-alive dead s t next e k = subst (λ d. Keeps (if d then some t else next) s) (sym e) k

module _ (E : StreamDef) (opaque_sink : transparent E.is_transparent ≡ false) where
  pub after_queues-open :
      (s : Stream)
      → s.close_asap ≡ false
      → after_queues E s ≡ some (record s { draining_queues = false })
  unfolding after_queues
  after_queues-open s e = rw e refl

  after_queues-Keeps :
      (s : Stream)
      → IsOpen s
      → All IsStored s.front_queue
      → All IsStored s.back_queue
      → Keeps (after_queues E s) s
  after_queues-Keeps s h f b = (
    record s { draining_queues = false },
    after_queues-open s h.2,
    record { opened = h; idle = refl; front_stored = f; back_stored = b },
    refl,
    refl,
    λ e. e,
  )

  back-Keeps :
      (s : Stream) (result : Option Stream)
      → IsOpen s
      → s.front_queue ≡ []
      → Ends E result back s s.back_queue
      → Keeps (result >>= (λ t. if t.dead then some t else after_queues E t)) s
  back-Keeps s result h e (o, r, f, a, l, g, i) =
      let t = drained back s o in
      subst (λ x. Keeps (x >>= (λ t. if t.dead then some t else after_queues E t)) s) (sym r)
        (Keeps-alive t.dead s t (after_queues E t) h.0 (
          Keeps-via (after_queues E t) s t (contents-back s o e f) refl (λ e. e)
            (after_queues-Keeps t h (subst (λ x. All IsStored x) (sym e) tt) a)))

  write_back_queue-Keeps :
      (s : Stream)
      → IsOpen s
      → All IsStored s.front_queue
      → All IsStored s.back_queue
      → Keeps (write_back_queue E s) s
  unfolding write_back_queue
  write_back_queue-Keeps s h f b =
      elim (Bool-cases (length s.front_queue == 0 && length s.prev == 0)) [
        | inl go ↦ rw go (
            back-Keeps s (write_queue E (enough s) back s) h
              (nil_of_length s.front_queue (ground (arith, go)))
              (write_queue-Ends E opaque_sink (enough s) back s s.back_queue h refl b
                (omega arith)))
        | inr stay ↦ rw stay (after_queues-Keeps s h f b)
      ]

  front-Keeps :
      (s : Stream) (result : Option Stream)
      → IsOpen s
      → All IsStored s.back_queue
      → Ends E result front s s.front_queue
      → Keeps (result >>= (λ t. if t.dead then some t else write_back_queue E t)) s
  front-Keeps s result h b (o, r, f, a, l, g, i) =
      let t = drained front s o in
      subst (λ x. Keeps (x >>= (λ t. if t.dead then some t else write_back_queue E t)) s) (sym r)
        (Keeps-alive t.dead s t (write_back_queue E t) h.0 (
          Keeps-via (write_back_queue E t) s t (contents-front s o f) refl
            (λ e.
              nil_of_length o.left (let z : length s.front_queue ≡ 0 = ap length e in omega arith))
            (write_back_queue-Keeps t h a b)))

  -- Draining the queues comes back, and no byte is lost, doubled or moved.
  pub write_queued-Keeps : (s : Stream) → Steady s → Keeps (write_queued E s) s
  unfolding write_queued
  write_queued-Keeps s k =
      let started = record s { draining_queues = true } in
      Keeps-if s.queueing s (some s) _ (Keeps-some s k) (
        Keeps-if s.draining_queues s (some s) _ (Keeps-some s k) (
          front-Keeps started (write_queue E (enough started) front started) k.opened k.back_stored
            (write_queue-Ends E opaque_sink (enough started) front started s.front_queue k.opened
              refl k.front_stored (omega arith))))
