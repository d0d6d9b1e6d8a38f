-- ===== src/Stream/Order.antt =====
-- The bytes that wait in a queue, and the draining of one.
use bluewing_cpp_server.Prelude.{
  ℕ, ◌<◌, Bool, true, false, Option, some, List, [], ◌∷◌, ◌++◌, if◌then◌else◌, Bytes, length, take,
  drop, ◌≡◌, refl, sym, arith, inl, inr, All, Bool-cases, length-take, ◌≤◌, ◌⊎◌, ◌∙◌, append_assoc,
  append-nil, take-append-drop, ap,
}
use bluewing_cpp_server.Stream.{
  queued_data, queued_stream, queued_begin_marker, Queued, Stream, StreamDef, is_data, queue_data,
  takes,
}
use bluewing_cpp_server.Stream.Queue.{Which, front, back, queue_of, put_queue}

-- The data of a queue, in the order in which it is to be written.
abbrev pub waiting : List Queued → Bytes
waiting [] = []
waiting (q ∷ queue) = if is_data q.type then q.buffer ++ waiting queue else waiting queue

append_end : (xs ys : Bytes) → (xs ++ ys) ++ [] ≡ (xs ++ []) ++ ys
append_end xs ys = rw (append-nil xs, append-nil (xs ++ ys)) refl

pub waiting-queue_data :
    (queue : List Queued) (buffer : Bytes)
    → waiting (queue_data queue buffer) ≡ waiting queue ++ buffer
unfolding queue_data
waiting-queue_data [] buffer = append-nil buffer
waiting-queue_data (q ∷ []) buffer = elim (Bool-cases (is_data q.type)) [
  | inl e ↦ rw e (rw e (append_end q.buffer buffer))
  | inr e ↦ rw e (rw (e, append-nil) refl)
]
waiting-queue_data (q ∷ r ∷ queue) buffer = elim (Bool-cases (is_data q.type)) [
  | inl e ↦ rw (e, waiting-queue_data (r ∷ queue) buffer, append_assoc) refl
  | inr e ↦ rw e (waiting-queue_data (r ∷ queue) buffer)
]

-- An item that is no source.
abbrev pub IsStored : Queued → Type 0
IsStored q = ¬ (q.type ≡ queued_stream)

-- Nothing keeps a write from the stream's own sink.
abbrev pub IsOpen : Stream → Type 0
IsOpen s =
    (s.dead ≡ false) × (s.closing ≡ false) × (s.close_asap ≡ false) × (s.head_upstream ≡ false)

-- What draining a queue does to its stream.
pub record Outcome : Type 0 where
  pub bytes : Bytes
  pub sinks : ℕ
  pub queueing : Bool
  pub left : List Queued

abbrev pub drained : Which → Stream → Outcome → Stream
drained w s o =
    put_queue w o.left
      (record s { sunk = s.sunk ++ o.bytes; sinks = o.sinks; queueing = o.queueing })

abbrev pub after : Which → Stream → List Queued → Bytes → ℕ → Stream
after w s queue bytes sinks = put_queue w queue (record s { sunk = s.sunk ++ bytes; sinks = sinks })

pub drained-after :
    (w : Which) (s : Stream) (queue : List Queued) (bytes : Bytes) (sinks : ℕ) (o : Outcome)
    → drained w (after w s queue bytes sinks) o
      ≡ drained w s (record o { bytes = bytes ++ o.bytes })
drained-after front s queue bytes sinks o = rw append_assoc
drained-after back s queue bytes sinks o = rw append_assoc

pub queue_of-after :
    (w : Which) (s : Stream) (queue : List Queued) (bytes : Bytes) (sinks : ℕ)
    → queue_of w (after w s queue bytes sinks) ≡ queue
queue_of-after front s queue bytes sinks = refl
queue_of-after back s queue bytes sinks = refl

pub IsOpen-after :
    (w : Which) (s : Stream) (queue : List Queued) (bytes : Bytes) (sinks : ℕ)
    → IsOpen s
    → IsOpen (after w s queue bytes sinks)
IsOpen-after front s queue bytes sinks h = h
IsOpen-after back s queue bytes sinks h = h

abbrev pub IsData : Queued → Type 0
IsData q = q.type ≡ queued_data

-- The sink takes something of whatever it is given.
abbrev pub Generous : StreamDef → Type 0
Generous E = (n : ℕ) (buffer : Bytes) → 0 < length buffer → 0 < takes E.sink_data n buffer

-- The queue was emptied, or stopped at a marker, or some of it was written.
abbrev pub Advances : Outcome → Type 0
Advances o = (o.left ≡ []) ⊎ ((o.queueing ≡ true) ⊎ (0 < length o.bytes))

-- A loop that ends, having written the data of a queue in their order up to where it stops, and left
-- the others in theirs.
abbrev pub Ends : StreamDef → Option Stream → Which → Stream → List Queued → Type 0
Ends E result w s queue =
    (o : Outcome) × (result ≡ some (drained w s o))
    × (waiting queue ≡ o.bytes ++ waiting o.left)
    × All IsStored o.left
    × (length o.left ≤ length queue)
    × (Generous E → Advances o)
    × (All IsData queue → All IsData o.left × (o.queueing ≡ s.queueing))

not_marker : (q : Queued) → q.type ≡ queued_begin_marker → ¬ IsData q
not_marker q d e = cc

outcome_none : Stream → List Queued → Outcome
outcome_none s left = record { bytes = []; sinks = s.sinks; queueing = s.queueing; left = left }

pub Ends-nil : (E : StreamDef) (w : Which) (s : Stream) → queue_of w s ≡ [] → Ends E (some s) w s []
unfolding outcome_none
Ends-nil E front s e = (
  outcome_none s [],
  ap some (rw (append-nil s.sunk, ← e) refl),
  refl,
  tt,
  omega arith,
  λ g. inl refl,
  λ x. (tt, refl),
)
Ends-nil E back s e = (
  outcome_none s [],
  ap some (rw (append-nil s.sunk, ← e) refl),
  refl,
  tt,
  omega arith,
  λ g. inl refl,
  λ x. (tt, refl),
)

marker-drained :
    (w : Which) (s : Stream) (queue : List Queued)
    → record (put_queue w queue s) { queueing = true }
      ≡ drained w s (record { bytes = []; sinks = s.sinks; queueing = true; left = queue })
marker-drained front s queue = rw (append-nil s.sunk) refl
marker-drained back s queue = rw (append-nil s.sunk) refl

pub Ends-marker :
    (E : StreamDef) (w : Which) (s : Stream) (q : Queued) (queue : List Queued)
    → q.type ≡ queued_begin_marker
    → All IsStored queue
    → Ends E (some (record (put_queue w queue s) { queueing = true })) w s (q ∷ queue)
Ends-marker E w s q queue d a = (
  record { bytes = []; sinks = s.sinks; queueing = true; left = queue },
  ap some (marker-drained w s queue),
  rw d refl,
  a,
  omega arith,
  λ g. inr (inl refl),
  λ x. absurd (not_marker q d x.0),
)

pub queueing-put :
    (w : Which) (queue : List Queued) (s : Stream) → (put_queue w queue s).queueing ≡ s.queueing
queueing-put front queue s = refl
queueing-put back queue s = refl

pub queueing-after :
    (w : Which) (s : Stream) (queue : List Queued) (bytes : Bytes) (sinks : ℕ)
    → (after w s queue bytes sinks).queueing ≡ s.queueing
queueing-after front s queue bytes sinks = refl
queueing-after back s queue bytes sinks = refl

pub drained-put :
    (w : Which) (s : Stream) (queue : List Queued) (o : Outcome)
    → drained w (put_queue w queue s) o ≡ drained w s o
drained-put front s queue o = refl
drained-put back s queue o = refl

pub queue_of-put :
    (w : Which) (queue : List Queued) (s : Stream) → queue_of w (put_queue w queue s) ≡ queue
queue_of-put front queue s = refl
queue_of-put back queue s = refl

pub IsOpen-put :
    (w : Which) (queue : List Queued) (s : Stream) → IsOpen s → IsOpen (put_queue w queue s)
IsOpen-put front queue s h = h
IsOpen-put back queue s h = h

pub waiting-data :
    (q : Queued) (queue : List Queued)
    → q.type ≡ queued_data
    → waiting (q ∷ queue) ≡ q.buffer ++ waiting queue
waiting-data q queue d = rw d refl

pub waiting_cut :
    (q : Queued) (queue : List Queued) (n : ℕ)
    → q.type ≡ queued_data
    → waiting (q ∷ queue)
      ≡ take n q.buffer ++ waiting (record q { buffer = drop n q.buffer } ∷ queue)
waiting_cut q queue n d =
    waiting-data q queue d
    ∙ ap (λ b. b ++ waiting queue) (sym (take-append-drop n q.buffer))
    ∙ append_assoc (take n q.buffer) (drop n q.buffer) (waiting queue)
    ∙ ap (λ b. take n q.buffer ++ b)
        (sym (waiting-data (record q { buffer = drop n q.buffer }) queue d))

taken_some : (n : ℕ) (b : Bytes) → 0 < n → 0 < length b → 0 < length (take n b)
taken_some n b h p = omega (arith, length-take n b)

pub Ends-partial :
    (E : StreamDef) (w : Which) (s : Stream) (q : Queued) (queue : List Queued) (sinks : ℕ)
    → q.type ≡ queued_data
    → 0 < length q.buffer
    → All IsStored (q ∷ queue)
    → let n = takes E.sink_data s.sinks q.buffer in
      Ends E
        (some (after w s (record q { buffer = drop n q.buffer } ∷ queue) (take n q.buffer) sinks))
        w
        s
        (q ∷ queue)
Ends-partial E w s q queue sinks d p a =
    let n = takes E.sink_data s.sinks q.buffer in
    (
      record {
        bytes = take n q.buffer;
        sinks = sinks;
        queueing = s.queueing;
        left = record q { buffer = drop n q.buffer } ∷ queue;
      },
      refl,
      waiting_cut q queue n d,
      a,
      omega arith,
      λ g. inr (inr (taken_some n q.buffer (g s.sinks q.buffer p) p)),
      λ x. (x, refl),
    )
