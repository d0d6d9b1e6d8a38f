-- ===== src/HttpClient/Requests.antt =====
-- A whole request without a body, from its first callback to its last.
use bluewing_cpp_server.Prelude.{
  ℕ, ◌<◌, Bool, true, false, Option, none, some, List, [], ◌∷◌, ◌++◌, if◌then◌else◌, ◌>>=◌, Bytes,
  codes, length, ◌≡◌, refl, ◌⊎◌, ap, ◌∙◌,
}
use bluewing_cpp_server.Util.{begins_with}
use bluewing_cpp_server.Request.{Platform, Request, header}
use bluewing_cpp_server.Request.Input.{in_url, method_size}
use bluewing_cpp_server.Request.Lifecycle.{Exchange, Hooks, clean, call_hook}
use bluewing_cpp_server.HttpClient.Callbacks.{
  Event, message_complete, Multiparts, HttpClient, on_event, on_events, on_message_complete,
}
use bluewing_cpp_server.HttpClient.Head.{
  Pairs, AreAccepted, in_headers, filled, versioned, head_events, last_name, on_events-head,
}

module _ (P : Platform) where
  -- Whose request is complete.
  abbrev pub completed : {M : Type 0} → HttpClient P M → Exchange P → HttpClient P M
  completed ctx exchange = record ctx { exchange = exchange; parsing_headers = true; paused = true }

module _ (P : Platform) {M : Type 0} (H : Hooks P) (N : Multiparts P M) where
  append_step :
      (called : Option (HttpClient P M × Bool)) (first second : List Event)
      → ((ctx : HttpClient P M)
          → on_events P H N ctx (first ++ second) ≡ (
              on_events P H N ctx first
              >>= (λ (next, ok). if ok then on_events P H N next second else some (next, false))))
      → (called >>= (λ (next, ok).
          if ok then on_events P H N next (first ++ second) else some (next, false)))
        ≡ ((called
              >>= (λ (next, ok). if ok then on_events P H N next first else some (next, false)))
            >>= (λ (next, ok). if ok then on_events P H N next second else some (next, false)))
  append_step none first second h = refl
  append_step (some (next, true)) first second h = h next
  append_step (some (next, false)) first second h = refl

  on_events-append :
      (first second : List Event) (ctx : HttpClient P M)
      → on_events P H N ctx (first ++ second) ≡ (
          on_events P H N ctx first
          >>= (λ (next, ok). if ok then on_events P H N next second else some (next, false)))
  unfolding on_events
  on_events-append [] second ctx = refl
  on_events-append (e ∷ first) second ctx =
      append_step (on_event P H N ctx e) first second (on_events-append first second)

  only_event :
      (called : Option (HttpClient P M × Bool))
      → (called >>= (λ (next, ok). if ok then some (next, true) else some (next, false))) ≡ called
  only_event none = refl
  only_event (some (next, true)) = refl
  only_event (some (next, false)) = refl

  complete :
      (events : List Event) (ctx after : HttpClient P M)
      → on_events P H N ctx events ≡ some (after, true)
      → on_events P H N ctx (events ++ message_complete ∷ []) ≡ on_message_complete P H N after
  unfolding on_events on_event
  complete events ctx after e =
      on_events-append events (message_complete ∷ []) ctx
      ∙ ap
          (λ r. r >>= (λ (next, ok).
            if ok then on_events P H N next (message_complete ∷ []) else some (next, false)))
          e
      ∙ only_event (on_message_complete P H N after)

  complete_plain :
      (ctx : HttpClient P M)
      → ctx.multipart ≡ none
      → on_message_complete P H N ctx
        ≡ (call_hook P H ctx.exchange >>= (λ x. some (completed P ctx x, true)))
  unfolding on_message_complete
  complete_plain ctx e = rw e refl

  complete_multipart :
      (ctx : HttpClient P M) (m : M)
      → ctx.multipart ≡ some m
      → on_message_complete P H N ctx ≡ some (completed P ctx ctx.exchange, true)
  unfolding on_message_complete
  complete_multipart ctx m e = rw e refl

  -- Where the URL leaves a request, in HTTP/1.0 or HTTP/1.1, that accepts each of the headers, of which
  -- there is at least one, its content type, if it has one, does not begin with "multipart", and its
  -- method fits: a request without a body on a connection without a multipart parser calls the hook,
  -- once, for the request that the URL left on a clean one, with this version, each header in its
  -- order, and the method: nothing of an earlier request on the connection is left in it. The client
  -- then waits for the next head.
  pub on_events-request :
      (ctx : HttpClient P M) (n : ℕ) (memory : Bytes) (minor : ℕ) (name value : Bytes)
      (pairs : Pairs) (method : Bytes) (request : Request P)
      → in_url P (clean P ctx.exchange.request) n memory ≡ some (request, true)
      → request.version_major ≡ 0
      → (minor ≡ 0) ⊎ (minor ≡ 1)
      → AreAccepted P (versioned P request minor) ((name, value) ∷ pairs)
      → length method < method_size
      → let last = record (in_headers P (versioned P request minor) ((name, value) ∷ pairs)) {
        method = method;
      } in
        begins_with (header P last (codes "content-type")) (codes "multipart") ≡ false
        → ctx.multipart ≡ none
        → on_events P H N ctx
            (head_events n memory minor name value pairs method ++ message_complete ∷ [])
          ≡ (call_hook P H (record ctx.exchange { request = last })
              >>= (λ x. some (completed P (filled P ctx last (last_name name pairs)) x, true)))
  on_events-request ctx n memory minor name value pairs method request u z m a l c e =
      complete (head_events n memory minor name value pairs method) ctx _
        (on_events-head P H N ctx n memory minor name value pairs method request u z m a l c)
      ∙ complete_plain _ e

  -- Once a client has a multipart parser, which it keeps when that is done, a request without a body comes
  -- back without an error, but is not answered: no hook is called for it, and nothing is sent. The
  -- request is in HTTP/1.0 or HTTP/1.1, its URL is accepted, and so is each of its headers, of which
  -- there is at least one, its content type does not begin with "multipart", and its method fits.
  pub on_events-unanswered :
      (ctx : HttpClient P M) (n : ℕ) (memory : Bytes) (minor : ℕ) (name value : Bytes)
      (pairs : Pairs) (method : Bytes) (request : Request P) (parser : M)
      → in_url P (clean P ctx.exchange.request) n memory ≡ some (request, true)
      → request.version_major ≡ 0
      → (minor ≡ 0) ⊎ (minor ≡ 1)
      → AreAccepted P (versioned P request minor) ((name, value) ∷ pairs)
      → length method < method_size
      → let last = record (in_headers P (versioned P request minor) ((name, value) ∷ pairs)) {
        method = method;
      } in
        begins_with (header P last (codes "content-type")) (codes "multipart") ≡ false
        → ctx.multipart ≡ some parser
        → on_events P H N ctx
            (head_events n memory minor name value pairs method ++ message_complete ∷ [])
          ≡ some (
            completed P
                (filled P ctx last (last_name name pairs))
                (record ctx.exchange { request = last }),
            true,
          )
  on_events-unanswered ctx n memory minor name value pairs method request parser u z m a l c e =
      complete (head_events n memory minor name value pairs method) ctx _
        (on_events-head P H N ctx n memory minor name value pairs method request u z m a l c)
      ∙ complete_multipart _ parser e
