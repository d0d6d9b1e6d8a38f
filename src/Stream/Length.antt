-- ===== src/Stream/Length.antt =====
-- lw_stream_queued, from which the length of a response is printed.
use bluewing_cpp_server.Prelude.{
  ℕ, ◌+◌, ◌%◌, ◌^◌, ◌<◌, Option, some, List, [], ◌∷◌, ◌>>=◌, length, ◌≡◌, refl, arith, All, ap, ◌∙◌,
  length-append,
}
use bluewing_cpp_server.Stream.{
  QueuedType, queued_data, queued_stream, queued_begin_marker, Queued, Stream,
}
use bluewing_cpp_server.Stream.Queue.{item_size, queued_from, queued}
use bluewing_cpp_server.Stream.Order.{waiting, IsStored}

-- An item without a source adds its data.
item_size-waiting :
    (bytes_left : ℕ → Option ℕ) (type : QueuedType) (q : Queued) (queue : List Queued)
    → q.type ≡ type
    → IsStored q
    → (n : ℕ) × (item_size bytes_left type q ≡ some n)
      × (length (waiting (q ∷ queue)) ≡ n + length (waiting queue))
unfolding item_size
item_size-waiting bytes_left queued_data q queue d a =
    (length q.buffer, refl, rw d (length-append q.buffer (waiting queue)))
item_size-waiting bytes_left queued_stream q queue d a = absurd (a d)
item_size-waiting bytes_left queued_begin_marker q queue d a = (0, refl, rw d (omega arith))

queued_from-waiting :
    (bytes_left : ℕ → Option ℕ) (size : ℕ) (queue : List Queued)
    → size < 2 ^ 64
    → All IsStored queue
    → queued_from bytes_left size queue ≡ some ((size + length (waiting queue)) % 2 ^ 64)
unfolding queued_from
queued_from-waiting bytes_left size [] h a = ap some (omega arith)
queued_from-waiting bytes_left size (q ∷ queue) h a =
    let (n, e, l) = item_size-waiting bytes_left q.type q queue refl a.0 in
    ap (λ o. o >>= (λ k. queued_from bytes_left ((size + k) % 2 ^ 64) queue)) e
    ∙ queued_from-waiting bytes_left ((size + n) % 2 ^ 64) queue (omega arith) a.1
    ∙ ap some (omega (arith, l))

-- What lw_stream_queued returns for a queue without sources is the number of bytes that wait in it,
-- modulo 2 ^ 64.
pub queued-waiting :
    (bytes_left : ℕ → Option ℕ) (s : Stream)
    → All IsStored s.back_queue
    → queued bytes_left s ≡ some (length (waiting s.back_queue) % 2 ^ 64)
unfolding queued
queued-waiting bytes_left s a =
    queued_from-waiting bytes_left 0 s.back_queue (omega arith) a ∙ ap some (omega arith)
