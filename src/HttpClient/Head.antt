-- ===== src/HttpClient/Head.antt =====
-- The head of a request, from its first callback to the end of its headers.
use bluewing_cpp_server.Prelude.{
  ℕ, ◌-◌, ◌<◌, true, false, some, List, [], ◌∷◌, ◌++◌, map, ltb, ◌==◌, Bytes, bytes_eq, codes,
  length, ◌≡◌, ◌≢◌, refl, sym, arith, inl, inr, ◌⊎◌, ◌∙◌, subst,
}
use bluewing_cpp_server.CLib.Decimal.{dec}
use bluewing_cpp_server.CLib.{tolower}
use bluewing_cpp_server.Util.{begins_with}
use bluewing_cpp_server.Request.{Platform, Request, header, set_cookie_ex}
use bluewing_cpp_server.Request.Input.{
  CookieState, in_version, in_method, in_header, in_url, method_size, cookie_step, cookie_finish,
  cookie_loop, parse_cookie_header,
}
use bluewing_cpp_server.Request.Lifecycle.{Hooks, clean}
use bluewing_cpp_server.HttpClient.Callbacks.{
  Event, message_begin, url, header_field, header_value, headers_complete, Multiparts, HttpClient,
  with_request, version_text, on_event, on_events, on_message_begin, on_url, on_header_field,
  on_header_value, on_headers_complete,
}

-- Names with their values.
abbrev pub Pairs : Type 0
Pairs = List (Bytes × Bytes)

-- The callbacks for these headers.
abbrev pub header_events : ℕ → ℕ → Pairs → List Event
header_events major minor [] = []
header_events major minor ((name, value) ∷ pairs) =
    header_field major minor name ∷ header_value value ∷ header_events major minor pairs

-- The head of a request, as the parser calls back for it.
abbrev pub head_events : ℕ → Bytes → ℕ → Bytes → Bytes → Pairs → Bytes → List Event
head_events n memory minor name value pairs method =
    message_begin
    ∷ url n memory
    ∷ header_field 1 minor name
    ∷ header_value value
    ∷ (header_events 1 minor pairs ++ headers_complete method ∷ [])

module _ (P : Platform) where
  -- A client with this request and header name.
  abbrev pub filled : {M : Type 0} → HttpClient P M → Request P → Bytes → HttpClient P M
  filled ctx request name = record ctx {
    exchange = record ctx.exchange { request = request };
    cur_header_name = name;
  }

  -- The request with its version.
  abbrev pub versioned : Request P → ℕ → Request P
  versioned request minor = record request { version_major = 1; version_minor = minor }

  -- The request behind these headers, and that each of them is accepted.
  unfoldable pub in_headers : Request P → Pairs → Request P
  in_headers request [] = request
  in_headers request ((name, value) ∷ pairs) = in_headers (in_header P request name value).0 pairs

  abbrev pub AreAccepted : Request P → Pairs → Type 0
  AreAccepted request [] = Unit
  AreAccepted request ((name, value) ∷ pairs) =
      ((in_header P request name value).1 ≡ true)
      × AreAccepted (in_header P request name value).0 pairs

  cookie_step_version :
      (r : Request P) (state : CookieState) (c : ℕ)
      → (cookie_step P r state c).0.version_major ≡ r.version_major
  unfolding cookie_step set_cookie_ex
  cookie_step_version r state c = ground arith

  cookie_finish_version :
      (r : Request P) (state : CookieState)
      → (cookie_finish P r state).0.version_major ≡ r.version_major
  unfolding cookie_finish set_cookie_ex
  cookie_finish_version r state = ground arith

  cookie_loop_version :
      (r : Request P) (state : CookieState) (text : Bytes)
      → (cookie_loop P r state text).0.version_major ≡ r.version_major
  unfolding cookie_loop
  cookie_loop_version r state [] = cookie_finish_version r state
  cookie_loop_version r state (c ∷ text) =
      let (s, next) = cookie_step P r state c in
      cookie_loop_version s next text ∙ cookie_step_version r state c

  in_header_version :
      (r : Request P) (name value : Bytes)
      → (in_header P r name value).0.version_major ≡ r.version_major
  unfolding in_header parse_cookie_header
  in_header_version r name value = ground (
    arith,
    cookie_loop_version
        (record r {
          headers_in = r.headers_in ++ record { name = map tolower name; value = value } ∷ [];
        })
        CookieState.seek_name value,
  )

abbrev pub last_name : Bytes → Pairs → Bytes
last_name name [] = name
last_name name ((next, value) ∷ pairs) = last_name next pairs

module _ (P : Platform) {M : Type 0} (H : Hooks P) (N : Multiparts P M) where
  header_step :
      (ctx : HttpClient P M) (major minor : ℕ) (name value : Bytes) (events : List Event)
      → ctx.exchange.request.version_major ≢ 0
      → (in_header P ctx.exchange.request name value).1 ≡ true
      → on_events P H N ctx (header_field major minor name ∷ header_value value ∷ events)
        ≡ on_events P H N (filled P ctx (in_header P ctx.exchange.request name value).0 name) events
  unfolding on_events on_event on_header_field on_header_value
  header_step ctx major minor name value events v e = ground (arith, v, e)

  headers_in_order :
      (pairs : Pairs) (ctx : HttpClient P M) (major minor : ℕ) (events : List Event)
      → ctx.exchange.request.version_major ≢ 0
      → AreAccepted P ctx.exchange.request pairs
      → on_events P H N ctx (header_events major minor pairs ++ events)
        ≡ on_events P H N
            (filled P ctx
              (in_headers P ctx.exchange.request pairs)
              (last_name ctx.cur_header_name pairs))
            events
  unfolding in_headers
  headers_in_order [] ctx major minor events v a = refl
  headers_in_order ((name, value) ∷ pairs) ctx major minor events v a =
      let next = (in_header P ctx.exchange.request name value).0 in
      header_step ctx major minor name value (header_events major minor pairs ++ events) v a.0
      ∙ headers_in_order pairs (filled P ctx next name) major minor events
          (subst (λ k. k ≢ 0) (sym (in_header_version P ctx.exchange.request name value)) v) a.1

  in_version_1 :
      (request : Request P) (minor : ℕ)
      → (minor ≡ 0) ⊎ (minor ≡ 1)
      → in_version P request (version_text 1 minor) ≡ (versioned P request minor, true)
  unfolding in_version dec bytes_eq
  in_version_1 request minor (inl e) = rw e refl
  in_version_1 request minor (inr e) = rw e refl

  first_step :
      (ctx : HttpClient P M) (minor : ℕ) (name value : Bytes) (events : List Event)
      → (minor ≡ 0) ⊎ (minor ≡ 1)
      → ctx.exchange.request.version_major ≡ 0
      → on_events P H N ctx (header_field 1 minor name ∷ header_value value ∷ events)
        ≡ on_events P H N
            (filled P ctx (versioned P ctx.exchange.request minor) name)
            (header_value value ∷ events)
  unfolding on_events on_event on_header_field
  first_step ctx minor name value events m e =
      let z : (ctx.exchange.request.version_major == 0) ≡ true = ground (arith, e) in
      rw (z, in_version_1 ctx.exchange.request minor m) refl

  headers_end :
      (ctx : HttpClient P M) (method : Bytes)
      → length method < method_size
      → let request = record ctx.exchange.request { method = method } in
        begins_with (header P request (codes "content-type")) (codes "multipart") ≡ false
        → on_events P H N ctx (headers_complete method ∷ [])
          ≡ some (with_request P H N (record ctx { parsing_headers = false }) request, true)
  unfolding on_events on_event on_headers_complete in_method
  headers_end ctx method l c =
      let small : ltb (method_size - 1) (length method) ≡ false = ground (arith, l) in
      rw (small, c) refl

  begin_step :
      (ctx : HttpClient P M) (n : ℕ) (memory : Bytes) (request : Request P) (events : List Event)
      → in_url P (clean P ctx.exchange.request) n memory ≡ some (request, true)
      → on_events P H N ctx (message_begin ∷ url n memory ∷ events)
        ≡ on_events P H N (with_request P H N ctx request) events
  unfolding on_events on_event on_message_begin on_url
  begin_step ctx n memory request events e = rw e refl

  value_step :
      (ctx : HttpClient P M) (value : Bytes) (events : List Event)
      → (in_header P ctx.exchange.request ctx.cur_header_name value).1 ≡ true
      → on_events P H N ctx (header_value value ∷ events)
        ≡ on_events P H N
            (with_request P H N ctx (in_header P ctx.exchange.request ctx.cur_header_name value).0)
            events
  unfolding on_events on_event on_header_value
  value_step ctx value events e = rw e refl

  pub on_events-head :
      (ctx : HttpClient P M) (n : ℕ) (memory : Bytes) (minor : ℕ) (name value : Bytes)
      (pairs : Pairs) (method : Bytes) (request : Request P)
      → in_url P (clean P ctx.exchange.request) n memory ≡ some (request, true)
      → request.version_major ≡ 0
      → (minor ≡ 0) ⊎ (minor ≡ 1)
      → AreAccepted P (versioned P request minor) ((name, value) ∷ pairs)
      → length method < method_size
      → let last = record (in_headers P (versioned P request minor) ((name, value) ∷ pairs)) {
        method = method;
      } in
        begins_with (header P last (codes "content-type")) (codes "multipart") ≡ false
        → on_events P H N ctx (head_events n memory minor name value pairs method)
          ≡ some
              (record (filled P ctx last (last_name name pairs)) { parsing_headers = false }, true)
  unfolding in_headers
  on_events-head ctx n memory minor name value pairs method request u z m a l c =
      let r = versioned P request minor in
      let named = filled P ctx r name in
      let next = (in_header P r name value).0 in
      let v : next.version_major ≢ 0 =
        subst (λ k. k ≢ 0) (sym (in_header_version P r name value)) (λ e. omega arith) in
      begin_step ctx n memory request _ u
      ∙ first_step (with_request P H N ctx request) minor name value
          (header_events 1 minor pairs ++ headers_complete method ∷ []) m z
      ∙ value_step named value (header_events 1 minor pairs ++ headers_complete method ∷ []) a.0
      ∙ headers_in_order pairs (filled P ctx next name) 1 minor (headers_complete method ∷ []) v a.1
      ∙ headers_end (filled P ctx (in_headers P next pairs) (last_name name pairs)) method l c
