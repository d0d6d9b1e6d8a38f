-- ===== src/Tests/Streams.antt =====
-- stream.c, with a sink that takes two bytes at a time.
use bluewing_cpp_server.Prelude.{
  ◌%◌, ◌^◌, true, false, none, some, List, [], ◌∷◌, Bytes, codes, length, min, ◌≡◌, refl, arith,
  inl, inr, ◌++◌, map,
}
use bluewing_cpp_server.Stream.{
  Stream, StreamDef, init, data_item, stream_item, queue_back, queue_data,
}
use bluewing_cpp_server.Stream.Queue.{
  back, write_queue, lwp_stream_write, end_queue_hb, head_flags, queued, begin_queue, end_queue,
  retry, write_queued,
}
use bluewing_cpp_server.Stream.Write.{write, write_free, queued_more}
use bluewing_cpp_server.Stream.Order.{Generous, waiting}
use bluewing_cpp_server.Stream.Drain.{contents}
use bluewing_cpp_server.Stream.Free.{Free, Adds, init-Free}
use bluewing_cpp_server.Stream.Traces.{
  Call, call_write, call_retry, call_begin_queue, call_end_queue, run, run-Adds, MayRun, call,
}
use bluewing_cpp_server.Stream.Progress.{retries, retries-empty}
use bluewing_cpp_server.Stream.Push.{pushed, Pushes, push-Pushes}
use bluewing_cpp_server.Stream.Heads.{head_lost}
use bluewing_cpp_server.Stream.Response.{end_queue_hb-out}
use bluewing_cpp_server.Stream.Sources.{write_queue-sources}
use bluewing_cpp_server.Stream.Stalls.{attempt, run-ToClose}
use bluewing_cpp_server.Stream.Length.{queued-waiting}

abbrev two_at_a_time : StreamDef
two_at_a_time = record {
  sink_data = some (λ n b. min 2 (length b));
  is_transparent = none;
  close = none;
  filter_takes = length;
  read_graph = λ s. s;
}

-- A stream with these data in its back queue.
abbrev held_back : Bytes → Stream
held_back bytes = record {
  queueing = false;
  close_asap = false;
  closing = false;
  dead = false;
  draining_queues = false;
  retry = 2;
  head_upstream = false;
  prev = [];
  front_queue = [];
  back_queue = data_item bytes ∷ [];
  close_hooks = [];
  sunk = [];
  sinks = 0;
  passed = [];
  filtered = [];
  hooks_called = [];
}

held_back-Free : (bytes : Bytes) → Free (held_back bytes)
held_back-Free bytes = record {
  steady = record {
    opened = (refl, refl, refl, refl);
    idle = refl;
    front_stored = tt;
    back_stored = (λ e. cc, tt);
  };
  alone = refl;
  no_front = refl;
}

abbrev session : List Call
session =
    call_begin_queue
    ∷ call_write (codes "abc")
    ∷ call_retry 1
    ∷ call_end_queue
    ∷ call_write (codes "de")
    ∷ []

session-MayRun : MayRun two_at_a_time session init
unfolding MayRun call lwp_stream_write write write_free begin_queue end_queue retry write_queued
    queue_back queue_data init queued_more
session-MayRun = (tt, (tt, (tt, (refl, (tt, tt)))))

run-Adds_example : Adds (run two_at_a_time session init) init (codes "abcde")
run-Adds_example = run-Adds two_at_a_time refl session init init-Free session-MayRun

two_at_a_time-Generous : Generous two_at_a_time
two_at_a_time-Generous n b p = omega arith

retries-empty_example :
    (t : Stream) × (run two_at_a_time (retries 4) (held_back (codes "xyz")) ≡ some t)
    × (t.back_queue ≡ [])
    × (t.sunk ≡ codes "xyz")
retries-empty_example =
    retries-empty two_at_a_time refl 4 (held_back (codes "xyz")) two_at_a_time-Generous
      (record { free = held_back-Free (codes "xyz"); not_queueing = refl; only_data = (refl, tt) })
      (omega arith)

-- With a source behind it.
abbrev busy : Stream
busy = record (held_back (codes "later")) {
  prev = record { from = 1; bytes_left = some 9; delete_stream = true } ∷ [];
}

push-Pushes_example :
    Pushes two_at_a_time refl
      (lwp_stream_write two_at_a_time busy (codes "now") pushed)
      busy
      (codes "now")
push-Pushes_example =
    push-Pushes two_at_a_time refl busy (codes "now")
      (record {
        opened = (refl, refl, refl, refl);
        idle = refl;
        front_stored = tt;
        back_stored = (λ e. cc, tt);
      })
      (omega arith) (omega arith)

abbrev begun : Stream
begun = record (held_back (codes "body")) { queueing = true }

begun-Free : Free begun
begun-Free = record {
  steady = record {
    opened = (refl, refl, refl, refl);
    idle = refl;
    front_stored = tt;
    back_stored = (λ e. cc, tt);
  };
  alone = refl;
  no_front = refl;
}

-- A stream that passes on what it gets, as that of a request.
abbrev request_stream : StreamDef
request_stream = record two_at_a_time { is_transparent = some true }

end_queue_hb-out_example :
    (t : Stream) × (end_queue_hb request_stream begun (codes "head" ∷ []) ≡ some t)
    × Free t
    × (t.passed ++ waiting t.back_queue ≡ codes "headbody")
end_queue_hb-out_example =
    end_queue_hb-out request_stream begun (codes "head") begun-Free refl (omega arith) (inl refl)

-- In front of a sink.
head_first :
    (t : Stream) × (end_queue_hb two_at_a_time begun (codes "head" ∷ []) ≡ some t)
    × Free t
    × (t.sunk ++ waiting t.back_queue ≡ codes "headbody")
head_first =
    end_queue_hb-out two_at_a_time begun (codes "head") begun-Free refl (omega arith) (inr refl)

-- A stream with a source in its back queue, which `Free` leaves out.
abbrev two_sources : Stream
two_sources = record (held_back []) {
  back_queue = stream_item 1 (some 9) true ∷ stream_item 2 (some 9) true ∷ [];
}

write_queue-sources_example : write_queue two_at_a_time 50 back two_sources ≡ none
write_queue-sources_example =
    write_queue-sources two_at_a_time 50 two_sources (stream_item 1 (some 9) true)
      (stream_item 2 (some 9) true) [] (λ t. refl) refl refl (refl, (refl, tt))

abbrev closing_soon : Stream
closing_soon = record (held_back (codes "xyz")) { close_asap = true }

run-ToClose_example :
    run two_at_a_time (map attempt (none ∷ some (codes "more") ∷ none ∷ [])) closing_soon
    ≡ some closing_soon
run-ToClose_example =
    run-ToClose two_at_a_time (none ∷ some (codes "more") ∷ none ∷ []) closing_soon
      (record {
        asked = refl;
        not_queueing = refl;
        alive = refl;
        no_front = refl;
        item = data_item (codes "xyz");
        behind = [];
        waits = refl;
        is_data = refl;
        some_data = omega arith;
      })
      refl

abbrev leftover : Stream
leftover = record (held_back []) { back_queue = []; front_queue = data_item (codes "first") ∷ [] }

queued-waiting_example : queued (λ n. none) (held_back (codes "xyz")) ≡ some (3 % 2 ^ 64)
queued-waiting_example = queued-waiting (λ n. none) (held_back (codes "xyz")) (λ e. cc, tt)

head_lost_example :
    (t : Stream) × (lwp_stream_write two_at_a_time two_sources (codes "head") head_flags
      ≡ some (4, t))
    × (contents t ≡ codes "he")
head_lost_example =
    head_lost two_at_a_time refl two_sources (codes "head") (stream_item 1 (some 9) true)
      (stream_item 2 (some 9) true ∷ []) (refl, refl, refl, refl) refl refl refl refl refl
      (omega arith) (omega arith)
