-- ===== src/Stream/Sources.antt =====
-- Sources that wait in the back queue.
use bluewing_cpp_server.Prelude.{
  ℕ, zero, suc, ◌<◌, true, false, none, List, [], ◌∷◌, ◌++◌, length, ◌≡◌, refl, arith, All, ap, ◌∙◌,
  subst, length-append, lt→ltb,
}
use bluewing_cpp_server.Stream.{queued_stream, Queued, Stream, StreamDef, stream_item}
use bluewing_cpp_server.Stream.Queue.{back, write_stream, drain_item, drain_next, write_queue}

abbrev pub IsSource : Queued → Type 0
IsSource q = q.type ≡ queued_stream

All_sources-append :
    (queue : List Queued) (q : Queued)
    → All IsSource queue
    → IsSource q
    → All IsSource (queue ++ q ∷ [])
All_sources-append [] q a e = (e, tt)
All_sources-append (p ∷ queue) q a e = (a.0, All_sources-append queue q a.1 e)

split_first :
    (queue : List Queued)
    → 0 < length queue
    → (q : Queued) × (rest : List Queued) × (queue ≡ q ∷ rest)
split_first [] p = absurd (omega arith)
split_first (q ∷ rest) p = (q, rest, refl)

-- A source that is linked while the stream has one already goes to the end of the back queue.
waits_again :
    (E : StreamDef) (s : Stream) (q : Queued)
    → 0 < length s.prev
    → write_stream E s q.stream q.stream_bytes_left true false q.delete_stream ≡ record s {
      back_queue = s.back_queue ++ stream_item q.stream q.stream_bytes_left q.delete_stream ∷ [];
    }
unfolding write_stream
waits_again E s q p = rw (lt→ltb 0 (length s.prev) p) refl

is_linked :
    (E : StreamDef) (s : Stream) (q : Queued)
    → ((t : Stream) → E.read_graph t ≡ t)
    → s.prev ≡ []
    → write_stream E s q.stream q.stream_bytes_left true false q.delete_stream ≡ record s {
      prev =
          record {
            from = q.stream;
            bytes_left = q.stream_bytes_left;
            delete_stream = q.delete_stream;
          }
          ∷ [];
    }
unfolding write_stream
is_linked E s q quiet e = rw (e, quiet) refl

module _ (E : StreamDef) where
  round_source :
      (fuel : ℕ) (s : Stream) (q : Queued) (queue : List Queued)
      → s.back_queue ≡ q ∷ queue
      → IsSource q
      → write_queue E (suc fuel) back s
        ≡ write_queue E fuel back (
            write_stream E
              (record s { back_queue = queue })
              q.stream
              q.stream_bytes_left
              true
              false
              q.delete_stream)
  unfolding write_queue drain_next drain_item
  round_source fuel s q queue w d =
      ap (λ items. drain_next E back s items (write_queue E fuel back)) w
      ∙ ap (λ type. drain_item E type back s q queue (write_queue E fuel back)) d

  busy_sources :
      (fuel : ℕ) (s : Stream)
      → 0 < length s.prev
      → 0 < length s.back_queue
      → All IsSource s.back_queue
      → write_queue E fuel back s ≡ none
  unfolding write_queue
  busy_sources zero s p l a = refl
  busy_sources (suc fuel) s p l a =
      let (q, queue, w) = split_first s.back_queue l in
      let b : All IsSource (q ∷ queue) = subst (λ items. All IsSource items) w a in
      let item = stream_item q.stream q.stream_bytes_left q.delete_stream in
      round_source fuel s q queue w b.0
      ∙ ap (write_queue E fuel back) (waits_again E (record s { back_queue = queue }) q p)
      ∙ busy_sources fuel (record s { back_queue = queue ++ item ∷ [] }) p
          (omega (arith, length-append queue (item ∷ []))) (All_sources-append queue item b.1 refl)

  -- Where a back queue holds sources alone, two or more of them, no source is linked to the stream, and a
  -- source that is linked has no data at hand, so that the reading of the graph leaves the stream as it
  -- is, the loop over the queue does not end, whatever the fuel: each round puts a source that finds the
  -- stream busy back to the end of the queue.
  pub write_queue-sources :
      (fuel : ℕ) (s : Stream) (q r : Queued) (queue : List Queued)
      → ((t : Stream) → E.read_graph t ≡ t)
      → s.prev ≡ []
      → s.back_queue ≡ q ∷ r ∷ queue
      → All IsSource (q ∷ r ∷ queue)
      → write_queue E fuel back s ≡ none
  unfolding write_queue
  write_queue-sources zero s q r queue quiet e w a = refl
  write_queue-sources (suc fuel) s q r queue quiet e w a =
      round_source fuel s q (r ∷ queue) w a.0
      ∙ ap (write_queue E fuel back) (is_linked E (record s { back_queue = r ∷ queue }) q quiet e)
      ∙ busy_sources fuel
          (record s {
            back_queue = r ∷ queue;
            prev =
                record {
                  from = q.stream;
                  bytes_left = q.stream_bytes_left;
                  delete_stream = q.delete_stream;
                }
                ∷ [];
          })
          (omega arith) (omega arith) a.1
