-- ===== src/Stream/Started.antt =====
-- lwp_stream_write_queued with an empty front queue.
use bluewing_cpp_server.Prelude.{
  ℕ, suc, ◌+◌, true, false, Option, some, [], if◌then◌else◌, ◌>>=◌, length, ◌≡◌, ap, ◌∙◌,
}
use bluewing_cpp_server.Stream.{Stream, StreamDef}
use bluewing_cpp_server.Stream.Queue.{
  front, drain_next, write_queue, enough, write_back_queue, write_queued,
}

module _ (E : StreamDef) where
  front_empty :
      (fuel : ℕ) (s : Stream) → s.front_queue ≡ [] → write_queue E (suc fuel) front s ≡ some s
  unfolding write_queue drain_next
  front_empty fuel s e = ap (λ items. drain_next E front s items (write_queue E fuel front)) e

  behind_front : Stream → Option Stream
  behind_front s =
      write_queue E (enough s) front s >>= (λ t. if t.dead then some t else write_back_queue E t)

  pub write_queued-started :
      (s : Stream)
      → s.queueing ≡ false
      → s.draining_queues ≡ false
      → s.front_queue ≡ []
      → s.dead ≡ false
      → write_queued E s ≡ write_back_queue E (record s { draining_queues = true })
  unfolding write_queued behind_front
  write_queued-started s q d f a =
      let started = record s { draining_queues = true } in
      ap (λ b. if b then some s else if s.draining_queues then some s else behind_front started) q
      ∙ ap (λ b. if b then some s else behind_front started) d
      ∙ ap (λ r. r >>= (λ t. if t.dead then some t else write_back_queue E t))
          (front_empty (length s.front_queue + length s.back_queue) started f)
      ∙ ap (λ b. if b then some started else write_back_queue E started) a
