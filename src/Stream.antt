-- ===== src/Stream.antt =====
-- stream.c and stream.h: what is written to a stream, and the queues in front of its sink. Write has
-- lwp_stream_write, Queue the draining of the queues, Close the closing.
--
-- The buffer of a queued item is the bytes that it holds. `sunk` is what the sink has taken and
-- `passed` what went on to the hooks and to the next stream without it.
pub mod Write
pub mod Queue
pub mod Close
pub mod Order
pub mod Rounds
pub mod Drain
pub mod Started
pub mod Free
pub mod Plain
pub mod Traces
pub mod Stalls
pub mod Sources
pub mod Push
pub mod PutBack
pub mod Heads
pub mod Progress
pub mod Length
pub mod Response
use bluewing_cpp_server.Prelude.{
  ℕ, ◌+◌, Bool, true, false, not, ◌&&◌, ◌||◌, Option, none, some, List, [], ◌∷◌, ◌++◌, ltb, ◌==◌,
  if◌then◌else◌, Bytes, length, take,
}

-- lwp_stream_queued_data and the others
pub data QueuedType : Type 0 where
  queued_data queued_stream queued_begin_marker : QueuedType

-- struct _lwp_stream_queued; `none` bytes left is -1.
pub record Queued : Type 0 where
  pub type : QueuedType
  pub buffer : Bytes
  pub stream : ℕ
  pub stream_bytes_left : Option ℕ
  pub delete_stream : Bool

-- A link from a source, of lwp_streamgraph_link.
pub record Link : Type 0 where
  pub from : ℕ
  pub bytes_left : Option ℕ
  pub delete_stream : Bool

-- The flags of lwp_stream_write.
pub record Flags : Type 0 where
  pub ignore_filters : Bool
  pub ignore_busy : Bool
  pub ignore_queue : Bool
  pub partial : Bool

-- struct _lw_stream, with its flags by name and what has come out of it.
pub record Stream : Type 0 where
  pub queueing : Bool
  pub close_asap : Bool
  pub closing : Bool
  pub dead : Bool
  pub draining_queues : Bool
  pub retry : ℕ
  pub head_upstream : Bool
  pub prev : List Link
  pub front_queue : List Queued
  pub back_queue : List Queued
  pub close_hooks : List ℕ
  pub sunk : Bytes
  pub sinks : ℕ
  pub passed : Bytes
  pub filtered : Bytes
  pub hooks_called : List ℕ

-- lw_streamdef: how much of its data the n-th call of `sink_data` takes, whether the stream is
-- transparent, what `close` answers, how much of its data the filter takes of a partial write, and what
-- lwp_streamgraph_expand and lwp_streamgraph_read make of a stream that a source has just been linked to:
-- a source with data at hand may push them, and be unlinked, in that call.
pub record StreamDef : Type 0 where
  pub sink_data : Option (ℕ → Bytes → ℕ)
  pub is_transparent : Option Bool
  pub close : Option (Bool → Bool)
  pub filter_takes : Bytes → ℕ
  pub read_graph : Stream → Stream

abbrev pub retry_now : ℕ
retry_now = 1

abbrev pub retry_never : ℕ
retry_never = 2

abbrev pub retry_more_data : ℕ
retry_more_data = 3

abbrev pub data_item : Bytes → Queued
data_item buffer = record {
  type = queued_data;
  buffer = buffer;
  stream = 0;
  stream_bytes_left = some 0;
  delete_stream = false;
}

abbrev pub stream_item : ℕ → Option ℕ → Bool → Queued
stream_item source size delete = record {
  type = queued_stream;
  buffer = [];
  stream = source;
  stream_bytes_left = size;
  delete_stream = delete;
}

abbrev pub begin_marker : Queued
begin_marker = record {
  type = queued_begin_marker;
  buffer = [];
  stream = 0;
  stream_bytes_left = some 0;
  delete_stream = false;
}

abbrev pub is_data : QueuedType → Bool
is_data queued_data = true
is_data queued_stream = false
is_data queued_begin_marker = false

-- What queue_back and queue_front do to their list.
unfoldable pub queue_data : List Queued → Bytes → List Queued
queue_data [] buffer = data_item buffer ∷ []
queue_data (q ∷ []) buffer =
    if is_data q.type
    then record q { buffer = q.buffer ++ buffer } ∷ []
    else q ∷ data_item buffer ∷ []
queue_data (q ∷ r ∷ queue) buffer = q ∷ queue_data (r ∷ queue) buffer

unfoldable pub queue_back : Stream → Bytes → Stream
queue_back s buffer = record s { back_queue = queue_data s.back_queue buffer }

unfoldable pub queue_front : Stream → Bytes → Stream
queue_front s buffer = record s { front_queue = queue_data s.front_queue buffer }

-- lwp_stream_may_close
unfoldable pub may_close : Stream → Bool
may_close s = length s.prev == 0 && length s.back_queue == 0 && length s.front_queue == 0

-- lwp_stream_init, for what is modelled of a stream
unfoldable pub init : Stream
init = record {
  queueing = false;
  close_asap = false;
  closing = false;
  dead = false;
  draining_queues = false;
  retry = retry_never;
  head_upstream = false;
  prev = [];
  front_queue = [];
  back_queue = [];
  close_hooks = [];
  sunk = [];
  sinks = 0;
  passed = [];
  filtered = [];
  hooks_called = [];
}

abbrev pub transparent : Option Bool → Bool
transparent none = false
transparent (some answer) = answer

abbrev pub takes : Option (ℕ → Bytes → ℕ) → ℕ → Bytes → ℕ
takes none n buffer = length buffer
takes (some sink) n buffer = sink n buffer

-- lw_stream_data of a stream that is transparent
unfoldable pub pass : Stream → Bytes → Stream
pass s buffer = record s { passed = s.passed ++ buffer }

module _ (E : StreamDef) where
  -- The call of `sink_data`.
  unfoldable pub sink : Stream → Bytes → ℕ × Stream
  sink s buffer =
      let n = takes E.sink_data s.sinks buffer in
      (n, record s { sunk = s.sunk ++ take n buffer; sinks = s.sinks + 1 })
