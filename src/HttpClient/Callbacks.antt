-- ===== src/HttpClient/Callbacks.antt =====
-- webserver/http/http-parse.c: the callbacks of the HTTP parser, on a request that they fill.
use bluewing_cpp_server.Prelude.{
  ℕ, Bool, true, false, not, Option, none, some, List, [], ◌∷◌, ◌++◌, ◌==◌, if◌then◌else◌, ◌>>=◌,
  Bytes, codes, length,
}
use bluewing_cpp_server.CLib.Decimal.{dec}
use bluewing_cpp_server.Util.{begins_with}
use bluewing_cpp_server.HeapBuffer.{add}
use bluewing_cpp_server.Request.{Platform, Request, header}
use bluewing_cpp_server.Request.Input.{in_version, in_method, in_header, in_url}
use bluewing_cpp_server.Request.Lifecycle.{Exchange, Hooks, clean, call_hook}

-- What the parser calls back with. The memory from a URL on goes beyond its length; a header field
-- comes with the version that the parser has read, the end of the headers with the method.
pub data Event : Type 0 where
  message_begin : Event
  url : ℕ → Bytes → Event
  header_field : ℕ → ℕ → Bytes → Event
  header_value : Bytes → Event
  headers_complete : Bytes → Event
  body : Bytes → Event
  message_complete : Event

-- The operations of a multipart parser: `new` is lwp_ws_multipart_new for a content type; `process`
-- is lwp_ws_multipart_process, which fills the request, may respond to it, and returns how much it has
-- taken.
pub record Multiparts (P : Platform) (M : Type 0) : Type 0 where
  pub new : Bytes → Option M
  pub process : M → Exchange P → Bytes → M × (Exchange P × ℕ)
  pub done : M → Bool

-- `struct _lwp_ws_httpclient`, as far as the callbacks read and write it; `paused` is
-- http_parser_pause.
pub record HttpClient (P : Platform) (M : Type 0) : Type 0 where
  pub exchange : Exchange P
  pub multipart : Option M
  pub parsing_headers : Bool
  pub signal_eof : Bool
  pub cur_header_name : Bytes
  pub paused : Bool

-- "HTTP/%d.%d", in an array of 16 bytes
abbrev pub version_text : ℕ → ℕ → Bytes
version_text major minor = codes "HTTP/" ++ (dec major ++ (codes "." ++ dec minor))

module _ (P : Platform) {M : Type 0} (H : Hooks P) (N : Multiparts P M) where
  -- A callback's client, and whether it returns 0; `none` is a read out of bounds or a failed
  -- assertion in a call.
  abbrev pub Called : Type 0
  Called = Option (HttpClient P M × Bool)

  abbrev pub with_request : HttpClient P M → Request P → HttpClient P M
  with_request ctx request = record ctx { exchange = record ctx.exchange { request = request } }

  unfoldable pub on_message_begin : HttpClient P M → Called
  on_message_begin ctx = some (with_request ctx (clean P ctx.exchange.request), true)

  unfoldable pub on_url : HttpClient P M → ℕ → Bytes → Called
  on_url ctx n memory =
      in_url P ctx.exchange.request n memory
      >>= (λ (request, ok). some (with_request ctx request, ok))

  unfoldable pub on_header_field : HttpClient P M → ℕ → ℕ → Bytes → Called
  on_header_field ctx major minor name =
      let (request, ok) = in_version P ctx.exchange.request (version_text major minor) in
      let named = record (with_request ctx request) { cur_header_name = name } in
      if not (ctx.exchange.request.version_major == 0)
      then some (record ctx { cur_header_name = name }, true)
      else if not ok
      then some (with_request ctx request, false)
      else some (named, true)

  unfoldable pub on_header_value : HttpClient P M → Bytes → Called
  on_header_value ctx value =
      let (request, ok) = in_header P ctx.exchange.request ctx.cur_header_name value in
      some (with_request ctx request, ok)

  unfoldable pub on_headers_complete : HttpClient P M → Bytes → Called
  on_headers_complete old method =
      let ctx = record old { parsing_headers = false } in
      let (request, ok) = in_method P ctx.exchange.request method in
      let filled = with_request ctx request in
      let content_type = header P request (codes "content-type") in
      let made = N.new content_type in
      if not ok
      then some (filled, false)
      else if begins_with content_type (codes "multipart")
      then elim made [
        | none ↦ some (record filled { multipart = none }, false)
        | some multipart ↦ some (record filled { multipart = some multipart }, true)
      ]
      else some (filled, true)

  unfoldable pub on_body : HttpClient P M → Bytes → Called
  on_body ctx input = elim ctx.multipart [
    | none ↦
        let request = ctx.exchange.request in
        some (
          with_request ctx
              (record request { buffer = (add P.alloc request.buffer input (length input)).0 }),
          true,
        )
    | some multipart ↦
        let (after, (exchange, taken)) = N.process multipart ctx.exchange input in
        let taken_by = record ctx { exchange = exchange; multipart = some after } in
        if not (taken == length input)
        then some (record ctx { exchange = exchange; multipart = none }, false)
        else if N.done after
        then some (record taken_by { signal_eof = true }, true)
        else some (taken_by, true)
  ]

  unfoldable pub on_message_complete : HttpClient P M → Called
  on_message_complete ctx = elim ctx.multipart [
    | none ↦ do
      exchange ← call_hook P H ctx.exchange
      some (record ctx { exchange = exchange; parsing_headers = true; paused = true }, true)
    | some multipart ↦ some (record ctx { parsing_headers = true; paused = true }, true)
  ]

  -- parser_settings
  unfoldable pub on_event : HttpClient P M → Event → Called
  unfolding on_message_begin on_url on_header_field on_header_value on_headers_complete on_body
      on_message_complete
  on_event ctx message_begin = on_message_begin ctx
  on_event ctx (url n memory) = on_url ctx n memory
  on_event ctx (header_field major minor name) = on_header_field ctx major minor name
  on_event ctx (header_value value) = on_header_value ctx value
  on_event ctx (headers_complete method) = on_headers_complete ctx method
  on_event ctx (body input) = on_body ctx input
  on_event ctx message_complete = on_message_complete ctx

  -- The callbacks in a row, up to one that fails.
  unfoldable pub on_events : HttpClient P M → List Event → Called
  unfolding on_event
  on_events ctx [] = some (ctx, true)
  on_events ctx (e ∷ events) =
      on_event ctx e >>= (λ (next, ok). if ok then on_events next events else some (next, false))
