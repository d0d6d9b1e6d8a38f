-- ===== src/Tests/HttpClients.antt =====
-- http-client.c and http-parse.c.
use bluewing_cpp_server.Prelude.{
  ◌>>=◌, ℕ, suc, Bool, true, false, not, none, some, [], ◌∷◌, ◌++◌, Bytes, codes, length, take, ◌≡◌,
  refl, arith, inl, bytes_eq,
}
use bluewing_cpp_server.Tests.Fixtures.{still, demo, idle, letters, letters-KeepsLiterals}
use bluewing_cpp_server.Tests.Requests.{no_dots, path_found}
use bluewing_cpp_server.CLib.{cstr, tolower, strcaseeq}
use bluewing_cpp_server.Util.{begins_with}
use bluewing_cpp_server.Util.Decode.{percent_encode}
use bluewing_cpp_server.Request.{Request, header, find_header}
use bluewing_cpp_server.Request.Input.{in_header, host_part}
use bluewing_cpp_server.Request.Input.Url.{in_url_path}
use bluewing_cpp_server.Request.Lifecycle.{Hooks, clean, call_hook}
use bluewing_cpp_server.HttpClient.{Connection, def_sink_data}
use bluewing_cpp_server.HttpClient.Pieces.{Pauses}
use bluewing_cpp_server.HttpClient.Sink.{Records, Sinks, def_sink_data-Sinks}
use bluewing_cpp_server.HttpClient.Callbacks.{Multiparts, HttpClient, message_complete, on_events}
use bluewing_cpp_server.HttpClient.Requests.{completed, on_events-request, on_events-unanswered}
use bluewing_cpp_server.HttpClient.Head.{
  Pairs, AreAccepted, in_headers, filled, versioned, head_events,
}

-- A client whose parser takes everything, and whose headers end with an empty line.
pub record Toy : Type 0 where
  pub parsed : Bytes
  pub headers : Bool
  pub shut : Bool

abbrev toy : Connection Toy
toy = record {
  execute = λ c b. (
    length b,
    record c { parsed = c.parsed ++ take (length b) b; headers = not (bytes_eq b (codes "\n")) },
  );
  responded = λ c. true;
  parsing_headers = λ c. c.headers;
  is_paused = λ c. false;
  upgrade = λ c. false;
  signal_eof = λ c. false;
  touch = λ c. c;
  unpause = λ c. c;
  clear_eof = λ c. c;
  close = λ c. record c { shut = true };
}

abbrev toy-Records : Records toy
toy-Records = record {
  seen = λ c. c.parsed;
  is_closed = λ c. c.shut;
  parsed_all = λ c b. refl;
  parsed_bound = λ c b. omega arith;
  touch_seen = λ c. refl;
  unpause_seen = λ c. refl;
  clear_eof_seen = λ c. refl;
  close_closed = λ c. refl;
}

abbrev fresh : Toy
fresh = record { parsed = []; headers = true; shut = false }

def_sink_data-Sinks_example :
    Sinks toy toy-Records fresh
      (codes "a: b\n\nbody")
      (def_sink_data toy fresh (codes "a: b\n\nbody"))
def_sink_data-Sinks_example = def_sink_data-Sinks toy toy-Records fresh (codes "a: b\n\nbody")

-- One whose requests have no body: its parser pauses at an empty line, which `shut` holds.
abbrev bodiless : Connection Toy
bodiless = record {
  execute = λ c b.
      (length b, record { parsed = c.parsed ++ b; headers = true; shut = bytes_eq b (codes "\n") });
  responded = λ c. true;
  parsing_headers = λ c. c.headers;
  is_paused = λ c. c.shut;
  upgrade = λ c. false;
  signal_eof = λ c. false;
  touch = λ c. c;
  unpause = λ c. record c { shut = false };
  clear_eof = λ c. c;
  close = λ c. c;
}

abbrev bodiless-Pauses : Pauses bodiless
bodiless-Pauses = record {
  takes_line = λ c line b h n e p. refl;
  next_head = λ c line b h n e p. refl;
}

-- No handlers, and no multipart bodies.
abbrev no_hooks : Hooks demo
no_hooks = record { client = still; on_get = none; on_post = none; on_head = none }

abbrev no_multiparts : Multiparts demo ℕ
no_multiparts = record { new = λ t. none; process = λ m x b. (m, (x, 0)); done = λ m. false }

abbrev connected : HttpClient demo ℕ
connected = record {
  exchange = idle;
  multipart = none;
  parsing_headers = true;
  signal_eof = false;
  cur_header_name = [];
  paused = false;
}

-- "/%2E%2E HTTP", as Requests has it.
abbrev line : Bytes
line = b'/' ∷ (percent_encode letters (codes "..") ++ codes " HTTP")

-- What the URL leaves on a clean request, and what the version and the headers leave on that.
abbrev at_url : Request demo
at_url = record (clean demo idle.request) { url = codes ".." }

abbrev pairs : Pairs
pairs = (codes "host", codes "a") ∷ (codes "X-Id", codes "7") ∷ []

accepted : AreAccepted demo (versioned demo at_url 0) pairs
unfolding in_header host_part bytes_eq cstr tolower
accepted = (refl, (refl, tt))

plain :
    let last = record (in_headers demo (versioned demo at_url 0) pairs) { method = codes "GET" } in
    begins_with (header demo last (codes "content-type")) (codes "multipart") ≡ false
unfolding in_headers in_header host_part header find_header begins_with bytes_eq cstr tolower clean
    strcaseeq
plain = refl

-- The request that the callbacks leave.
abbrev got : Request demo
got = record (in_headers demo (versioned demo at_url 0) pairs) { method = codes "GET" }

on_events-request_example :
    on_events demo no_hooks no_multiparts connected (
      head_events
        (suc (length (percent_encode letters (codes ".."))))
        line
        0
        (codes "host")
        (codes "a")
        ((codes "X-Id", codes "7") ∷ [])
        (codes "GET")
      ++ message_complete ∷ [])
    ≡ (call_hook demo no_hooks (record idle { request = got })
        >>= (λ x. some (completed demo (filled demo connected got (codes "X-Id")) x, true)))
unfolding clean
on_events-request_example =
    on_events-request demo no_hooks no_multiparts connected
      (suc (length (percent_encode letters (codes "..")))) line 0 (codes "host") (codes "a")
      ((codes "X-Id", codes "7") ∷ []) (codes "GET") at_url
      (in_url_path demo (clean demo idle.request) letters (codes "..") (codes " HTTP")
        letters-KeepsLiterals (omega arith, (omega arith, tt)) (omega arith) no_dots path_found)
      refl (inl refl) accepted (omega arith) plain refl

abbrev with_multipart : HttpClient demo ℕ
with_multipart = record connected { multipart = some 1 }

on_events-unanswered_example :
    on_events demo no_hooks no_multiparts with_multipart (
      head_events
        (suc (length (percent_encode letters (codes ".."))))
        line
        0
        (codes "host")
        (codes "a")
        ((codes "X-Id", codes "7") ∷ [])
        (codes "GET")
      ++ message_complete ∷ [])
    ≡ some (
      completed demo
          (filled demo with_multipart got (codes "X-Id"))
          (record idle { request = got }),
      true,
    )
unfolding clean
on_events-unanswered_example =
    on_events-unanswered demo no_hooks no_multiparts with_multipart
      (suc (length (percent_encode letters (codes "..")))) line 0 (codes "host") (codes "a")
      ((codes "X-Id", codes "7") ∷ []) (codes "GET") at_url 1
      (in_url_path demo (clean demo idle.request) letters (codes "..") (codes " HTTP")
        letters-KeepsLiterals (omega arith, (omega arith, tt)) (omega arith) no_dots path_found)
      refl (inl refl) accepted (omega arith) plain refl
