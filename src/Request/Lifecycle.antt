-- ===== src/Request/Lifecycle.antt =====
-- request.c and webserver/http/http-client.c: a request from one use to the next, the call of its
-- handler, and the response that goes out.
pub mod Answers
pub mod Head
use bluewing_cpp_server.Prelude.{
  ℕ, ◌+◌, Bool, true, false, not, ◌&&◌, ◌||◌, Option, none, some, List, [], ◌∷◌, ◌++◌, map, ◌==◌,
  if◌then◌else◌, ◌>>=◌, Bytes, bytes_eq, codes, length, take,
}
use bluewing_cpp_server.CLib.{cstr}
use bluewing_cpp_server.CLib.Decimal.{dec}
use bluewing_cpp_server.HeapBuffer.{
  HeapBuffer, add as add_bytes, addf, reset, pending, buffer as buffer_of,
}
use bluewing_cpp_server.Request.{Platform, Request, Header, Cookie, add_header}
use bluewing_cpp_server.Request.Output.{set_status}

-- "\r\nname: value"
unfoldable pub header_line : Header → Bytes
header_line h = codes "\r\n" ++ (cstr h.name ++ (codes ": " ++ cstr h.value))

-- The cookie loop of `client_respond`: what it formats for one cookie.
unfoldable pub cookie_lines : Cookie → List Bytes
cookie_lines cookie =
    let set = codes "\r\nset-cookie: " ++ (cstr cookie.name ++ (codes "=" ++ cstr cookie.value)) in
    let attr = codes "; " ++ cstr cookie.attr in
    if not cookie.changed
    then []
    else if length (cstr cookie.attr) == 0
    then set ∷ []
    else set ∷ attr ∷ []

unfoldable pub all_cookie_lines : List (Bytes × Cookie) → List Bytes
unfolding cookie_lines
all_cookie_lines [] = []
all_cookie_lines ((name, cookie) ∷ rest) = cookie_lines cookie ++ all_cookie_lines rest

-- The calls of `lwp_heapbuffer_addf` in a row.
unfoldable pub write_all : (ℕ → Bool) → Option HeapBuffer → List Bytes → Option HeapBuffer
write_all alloc hb [] = hb
write_all alloc hb (piece ∷ rest) = write_all alloc (addf alloc hb (some piece)) rest

abbrev pub held : ℕ → Option Bytes → Bytes
held n none = []
held n (some memory) = take n memory

-- What the heap buffer holds; nothing if an allocation has failed.
unfoldable pub buffered : Option HeapBuffer → Bytes
buffered hb = held (pending hb) (buffer_of hb)

module _ (P : Platform) where
  -- A request with what is queued on its stream, what has gone out to the socket, and whether that has
  -- been asked to close.
  pub record Exchange : Type 0 where
    pub request : Request P
    pub queued : Bytes
    pub sent : List Bytes
    pub closing : Bool

  -- What client_respond calls for its client: http_should_keep_alive of the http-parser library, and
  -- lw_stream_retry of the stream of the client, which hands the sink what waits there.
  pub record Client : Type 0 where
    pub should_keep_alive : Request P → Bool
    pub retry : Exchange → Option Exchange

  -- lwp_ws_req_clean
  unfoldable pub clean : Request P → Request P
  clean ctx = record ctx {
    responded = true;
    parsed_post_data = false;
    version_major = 0;
    version_minor = 0;
    headers_in = [];
    headers_out = [];
    cookies = P.cookies.empty;
    get_items = P.names.empty;
    post_items = P.names.empty;
    method = [];
    url = [];
    hostname = [];
    buffer = none;
  }

  -- lwp_ws_req_new, for a client and a webserver
  unfoldable pub new : Bool → ℕ → Bool → Request P
  new secure timeout auto_finish = record {
    cookies = P.cookies.empty;
    version_major = 0;
    version_minor = 0;
    method = [];
    url = [];
    hostname = [];
    headers_in = [];
    get_items = P.names.empty;
    post_items = P.names.empty;
    buffer = none;
    parsed_post_data = false;
    status = [];
    headers_out = [];
    responded = true;
    secure = secure;
    timeout = timeout;
    auto_finish = auto_finish;
  }

  -- The status line, the headers, the changed cookies and the length of the body.
  unfoldable pub head_pieces : Request P → ℕ → List Bytes
  head_pieces ctx queued =
      (codes "HTTP/"
        ++ (dec ctx.version_major
            ++ (codes "." ++ (dec ctx.version_minor ++ (codes " " ++ cstr ctx.status)))))
      ∷ (map header_line ctx.headers_out
          ++ (all_cookie_lines (P.cookies.items ctx.cookies)
              ++ ((codes "\r\ncontent-length: " ++ (dec queued ++ codes "\r\n\r\n")) ∷ [])))

  -- client_respond, up to its retry: the head goes out before what the handler has queued. The time of
  -- the last activity is left out.
  unfoldable pub responded : Client → Exchange → Exchange
  responded client x =
      let hb =
        write_all P.alloc (reset x.request.buffer) (head_pieces x.request (length x.queued)) in
      record {
        request = record x.request { buffer = reset hb; responded = true };
        queued = [];
        sent = x.sent ++ (buffered hb ++ x.queued) ∷ [];
        closing = x.closing || not (client.should_keep_alive x.request);
      }

  -- client_respond
  unfoldable pub client_respond : Client → Exchange → Option Exchange
  unfolding responded
  client_respond client x = client.retry (responded client x)

  -- lwp_ws_req_respond and lw_ws_req_finish; `none` is the failed assertion.
  unfoldable pub respond : Client → Exchange → Option Exchange
  unfolding client_respond
  respond client x =
      let answer = client_respond client x in if x.request.responded then none else answer

  -- lwp_ws_req_before_handler, up to its assertion
  unfoldable pub prepare : Request P → Request P
  prepare old =
      let ctx = record old {
        buffer = (add_bytes P.alloc old.buffer (0 ∷ []) 1).0;
        status = codes "200 OK";
        headers_out = [];
      } in
      let served =
        add_header P (add_header P ctx (codes "server") P.version) (codes "content-type")
          (codes "text/html; charset=UTF-8") in
      if served.secure then add_header P served (codes "cache-control") (codes "public") else served

  -- lwp_ws_req_before_handler; `none` is the failed assertion.
  unfoldable pub before_handler : Exchange → Option Exchange
  before_handler x =
      if not x.request.responded
      then none
      else some (record x { request = record (prepare x.request) { responded = false } })

  -- lwp_ws_req_after_handler
  unfoldable pub after_handler : Client → Exchange → Option Exchange
  unfolding respond
  after_handler client x =
      let answer = respond client x in
      if not x.request.responded && x.request.auto_finish then answer else some x

  -- The hooks of the webserver, with the client that they are called for; `none` is a null pointer. A
  -- handler may itself finish the request.
  abbrev pub Handler : Type 0
  Handler = Exchange → Option Exchange

  pub record Hooks : Type 0 where
    pub client : Client
    pub on_get : Option Handler
    pub on_post : Option Handler
    pub on_head : Option Handler

  abbrev pub run : Option Handler → Exchange → Option Exchange
  run none x = some x
  run (some h) x = h x

  -- lwp_ws_req_call_hook
  unfoldable pub call_hook : Hooks → Exchange → Option Exchange
  unfolding after_handler respond
  call_hook hooks x = do
    b ← before_handler x
    (if bytes_eq b.request.method (codes "GET")
        then run hooks.on_get b >>= after_handler hooks.client
        else if bytes_eq b.request.method (codes "POST")
        then run hooks.on_post b >>= after_handler hooks.client
        else if bytes_eq b.request.method (codes "HEAD")
        then run hooks.on_head b >>= after_handler hooks.client
        else respond hooks.client
            (record b { request = set_status P b.request 501 (codes "Not Implemented") }))
