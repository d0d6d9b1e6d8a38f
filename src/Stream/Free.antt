-- ===== src/Stream/Free.antt =====
-- A stream that no source writes to, and what a call adds to its contents.
use bluewing_cpp_server.Prelude.{
  ℕ, Bool, true, false, not, Option, some, List, [], ◌∷◌, ◌++◌, if◌then◌else◌, Bytes, length, take,
  ◌≡◌, refl, sym, inl, inr, All, Bool-cases, append_assoc, append-nil, ap, ◌∙◌,
}
use bluewing_cpp_server.Stream.{
  init, Queued, Flags, Stream, StreamDef, is_data, queue_data, queue_back, takes, sink,
}
use bluewing_cpp_server.Stream.Write.{Result}
use bluewing_cpp_server.Stream.Order.{waiting, waiting-queue_data, IsStored}
use bluewing_cpp_server.Stream.Drain.{contents, Steady, Keeps}

-- lw_stream_write
abbrev pub plain : Flags
plain = record {
  ignore_filters = false;
  ignore_busy = false;
  ignore_queue = false;
  partial = false;
}

-- A stream that no source writes to.
pub record Free (s : Stream) : Type 0 where
  pub steady : Steady s
  pub alone : s.prev ≡ []
  pub no_front : s.front_queue ≡ []

-- A call that comes back with the stream free, and these bytes behind its contents.
abbrev pub Adds : Option Stream → Stream → Bytes → Type 0
Adds result s bytes = (t : Stream) × (result ≡ some t) × Free t × (contents t ≡ contents s ++ bytes)

-- The same for a write, which returns its size.
abbrev pub Writes : Result → Stream → Bytes → Type 0
Writes result s bytes =
    (t : Stream) × (result ≡ some (length bytes, t)) × Free t × (contents t ≡ contents s ++ bytes)

pub All-IsStored-queue_data :
    (queue : List Queued) (bytes : Bytes)
    → All IsStored queue
    → All IsStored (queue_data queue bytes)
unfolding queue_data
All-IsStored-queue_data [] bytes a = (λ e. cc, tt)
All-IsStored-queue_data (q ∷ []) bytes a = elim (Bool-cases (is_data q.type)) [
  | inl e ↦ rw e a
  | inr e ↦ rw e (a.0, (λ e. cc, tt))
]
All-IsStored-queue_data (q ∷ r ∷ queue) bytes a =
    (a.0, All-IsStored-queue_data (r ∷ queue) bytes a.1)

pub Keeps-Adds : (result : Option Stream) (s : Stream) → Free s → Keeps result s → Adds result s []
Keeps-Adds result s f (t, r, k, c, p, g) = (
  t,
  r,
  record { steady = k; alone = p ∙ f.alone; no_front = g f.no_front },
  c ∙ sym (append-nil (contents s)),
)

pub contents-queue_back :
    (s : Stream) (bytes : Bytes) → contents (queue_back s bytes) ≡ contents s ++ bytes
unfolding queue_back
contents-queue_back s bytes = rw (waiting-queue_data s.back_queue bytes) (
    sym (
      append_assoc s.sunk (waiting s.front_queue ++ waiting s.back_queue) bytes
      ∙ ap (λ b. s.sunk ++ b) (append_assoc (waiting s.front_queue) (waiting s.back_queue) bytes)))

pub Free-queue_back : (s : Stream) (bytes : Bytes) → Free s → Free (queue_back s bytes)
unfolding queue_back
Free-queue_back s bytes f = record {
  steady = record {
    opened = f.steady.opened;
    idle = f.steady.idle;
    front_stored = f.steady.front_stored;
    back_stored = All-IsStored-queue_data s.back_queue bytes f.steady.back_stored;
  };
  alone = f.alone;
  no_front = f.no_front;
}

unfoldable pub sunk : StreamDef → Stream → Bytes → Stream
unfolding sink
sunk E s bytes = (sink E s bytes).1

swap :
    (sunk bytes front back : Bytes)
    → front ≡ []
    → back ≡ []
    → (sunk ++ bytes) ++ (front ++ back) ≡ (sunk ++ (front ++ back)) ++ bytes
swap sunk bytes front back e f = rw (e, f, append-nil (sunk ++ bytes), append-nil sunk) refl

pub contents-sunk :
    (E : StreamDef) (s : Stream) (bytes : Bytes)
    → s.front_queue ≡ []
    → s.back_queue ≡ []
    → contents (sunk E s bytes) ≡ contents s ++ take (takes E.sink_data s.sinks bytes) bytes
unfolding sunk sink
contents-sunk E s bytes f b =
    swap s.sunk (take (takes E.sink_data s.sinks bytes) bytes) (waiting s.front_queue)
      (waiting s.back_queue) (ap waiting f) (ap waiting b)

pub if_not :
    (c : Bool) (n : ℕ) (x y : Stream)
    → if◌then◌else◌ {A = Result} (not c) (some (n, y)) (some (n, x)) ≡ some (n, if c then x else y)
if_not true n x y = refl
if_not false n x y = refl

-- A new stream is free.
pub init-Free : Free init
unfolding init
init-Free = record {
  steady = record {
    opened = (refl, refl, refl, refl);
    idle = refl;
    front_stored = tt;
    back_stored = tt;
  };
  alone = refl;
  no_front = refl;
}
