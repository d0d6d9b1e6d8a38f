-- ===== src/Request/Lifecycle/Answers.antt =====
-- Each request gets one response, whatever the handler does.
use bluewing_cpp_server.Prelude.{
  ℕ, ◌+◌, Bool, true, false, Option, none, some, ◌≡◌, ◌⊎◌, inl, inr, ◌∙◌, refl, arith,
  if◌then◌else◌, ◌>>=◌, bytes_eq, codes, length, length-append,
}
use bluewing_cpp_server.Request.{Platform, Request, add_header}
use bluewing_cpp_server.Request.Output.{set_status}
use bluewing_cpp_server.Request.Lifecycle.{
  Exchange, Handler, Hooks, Client, client_respond, responded, respond, before_handler,
  after_handler, prepare, run, call_hook,
}

module _ (P : Platform) where
  -- The exchange after `x`, with so many responses more and the request finished or not.
  pub record Answered (x : Exchange P) (more : ℕ) (done : Bool) (y : Exchange P) : Type 0 where
    pub responses : length y.sent ≡ length x.sent + more
    pub finished : y.request.responded ≡ done
    pub auto : y.request.auto_finish ≡ x.request.auto_finish

  -- A handler that returns, and finishes the request at most once: it leaves it open with nothing
  -- sent, or finished with one response sent.
  abbrev pub IsWellBehaved : Handler P → Type 0
  IsWellBehaved h =
      (x : Exchange P)
      → x.request.responded ≡ false
      → (y : Exchange P) × (h x ≡ some y) × (Answered x 0 false y ⊎ Answered x 1 true y)

  abbrev pub AreWellBehaved : Option (Handler P) → Type 0
  AreWellBehaved none = Unit
  AreWellBehaved (some h) = IsWellBehaved h

  -- A client whose stream has nothing to hand over when it is retried. A hook is called from the sink of
  -- that stream, while its queue is empty or is being drained, where lw_stream_retry does nothing.
  abbrev pub IsQuiet : Client P → Type 0
  IsQuiet client = (x : Exchange P) → client.retry x ≡ some x

  responded-Answered :
      (client : Client P) (x : Exchange P) → Answered x 1 true (responded P client x)
  unfolding responded
  responded-Answered client x = record {
    responses = length-append x.sent _;
    finished = refl;
    auto = refl;
  }

  client_respond-quiet :
      (client : Client P) (x : Exchange P)
      → IsQuiet client
      → client_respond P client x ≡ some (responded P client x)
  unfolding client_respond
  client_respond-quiet client x quiet = quiet (responded P client x)

  after_open :
      (client : Client P) (y : Exchange P)
      → y.request.responded ≡ false
      → y.request.auto_finish ≡ true
      → after_handler P client y ≡ client_respond P client y
  unfolding after_handler respond
  after_open client y r a = ground arith

  after_done :
      (client : Client P) (y : Exchange P)
      → y.request.responded ≡ true
      → after_handler P client y ≡ some y
  unfolding after_handler respond
  after_done client y r = ground arith

  pub Answered-trans :
      {x y z : Exchange P} {n m : ℕ} {d e : Bool}
      → Answered x n d y
      → Answered y m e z
      → Answered x (n + m) e z
  Answered-trans a b = record {
    responses = omega (arith, a.responses, b.responses);
    finished = b.finished;
    auto = b.auto ∙ a.auto;
  }

  -- A handler that left the request open is answered for; one that has finished it is not.
  after-Answered :
      (client : Client P) (b y : Exchange P)
      → IsQuiet client
      → b.request.auto_finish ≡ true
      → Answered b 0 false y ⊎ Answered b 1 true y
      → (z : Exchange P) × (after_handler P client y ≡ some z) × Answered b 1 true z
  after-Answered client b y quiet auto (inl a) = (
    responded P client y,
    after_open client y a.finished (a.auto ∙ auto) ∙ client_respond-quiet client y quiet,
    Answered-trans a (responded-Answered client y),
  )
  after-Answered client b y quiet auto (inr a) = (y, after_done client y a.finished, a)

  -- From an open request, the call of a hook and what is done behind it.
  pub hook-Answered :
      (client : Client P) (h : Option (Handler P)) (b : Exchange P)
      → IsQuiet client
      → AreWellBehaved h
      → b.request.responded ≡ false
      → b.request.auto_finish ≡ true
      → (y : Exchange P) × ((run P h b >>= after_handler P client) ≡ some y) × Answered b 1 true y
  hook-Answered client none b quiet w open_ auto = (
    responded P client b,
    after_open client b open_ auto ∙ client_respond-quiet client b quiet,
    responded-Answered client b,
  )
  hook-Answered client (some h) b quiet w open_ auto =
      let (y, e, outcome) = w b open_ in rw e (after-Answered client b y quiet auto outcome)

  auto_finish-prepare : (ctx : Request P) → (prepare P ctx).auto_finish ≡ ctx.auto_finish
  unfolding prepare add_header
  auto_finish-prepare ctx = ground arith

  refused_open :
      (client : Client P) (b : Exchange P)
      → b.request.responded ≡ false
      → respond P client b ≡ client_respond P client b
  unfolding respond
  refused_open client b r = rw r refl

  -- The answer to a method that is none of the three.
  refused-Answered :
      (client : Client P) (b : Exchange P)
      → IsQuiet client
      → b.request.responded ≡ false
      → (y : Exchange P) × (respond P client
            (record b { request = set_status P b.request 501 (codes "Not Implemented") })
          ≡ some y)
        × Answered b 1 true y
  unfolding respond set_status
  refused-Answered client b quiet r =
      let refused = record b { request = set_status P b.request 501 (codes "Not Implemented") } in
      let answered = responded-Answered client refused in
      (
        responded P client refused,
        refused_open client refused r ∙ client_respond-quiet client refused quiet,
        record {
          responses = answered.responses;
          finished = answered.finished;
          auto = answered.auto;
        },
      )

  -- What stands before the call of the hook: an open request, with nothing sent.
  pub before-Answered :
      (x : Exchange P)
      → x.request.responded ≡ true
      → (b : Exchange P) × (before_handler P x ≡ some b) × Answered x 0 false b
  unfolding before_handler
  before-Answered x r = (
    record x { request = record (prepare P x.request) { responded = false } },
    rw r,
    record { responses = omega arith; finished = refl; auto = auto_finish-prepare x.request },
  )

  choose :
      (t : Bool) {b : Exchange P} {o o' : Option (Exchange P)}
      → (y : Exchange P) × (o ≡ some y) × Answered b 1 true y
      → (y : Exchange P) × (o' ≡ some y) × Answered b 1 true y
      → (y : Exchange P) × ((if t then o else o') ≡ some y) × Answered b 1 true y
  choose true yes_ no_ = yes_
  choose false yes_ no_ = no_

  Answered-from :
      {x b : Exchange P} {o : Option (Exchange P)}
      → Answered x 0 false b
      → (y : Exchange P) × (o ≡ some y) × Answered b 1 true y
      → (y : Exchange P) × (o ≡ some y) × Answered x 1 true y
  Answered-from a (y, e, c) = (y, e, Answered-trans a c)

  -- The call of a request's hook, when the request before it is finished and requests are finished
  -- automatically, returns with the request finished and exactly one response more sent, whatever
  -- the method and whether or not the handler has finished it, if each handler returns and finishes
  -- its request at most once, and the retry behind a response finds no data that wait on the client's
  -- stream, as it does in a hook that the sink of that stream has called.
  pub call_hook-Answered :
      (hooks : Hooks P) (x : Exchange P)
      → IsQuiet hooks.client
      → AreWellBehaved hooks.on_get
      → AreWellBehaved hooks.on_post
      → AreWellBehaved hooks.on_head
      → x.request.responded ≡ true
      → x.request.auto_finish ≡ true
      → (y : Exchange P) × (call_hook P hooks x ≡ some y) × Answered x 1 true y
  unfolding call_hook
  call_hook-Answered hooks x quiet g p h r auto =
      let (b, e, before) = before-Answered x r in
      let get =
        hook-Answered hooks.client hooks.on_get b quiet g before.finished (before.auto ∙ auto) in
      let post =
        hook-Answered hooks.client hooks.on_post b quiet p before.finished (before.auto ∙ auto) in
      let head =
        hook-Answered hooks.client hooks.on_head b quiet h before.finished (before.auto ∙ auto) in
      rw e (
        Answered-from before (
          choose (bytes_eq b.request.method (codes "GET")) get (
            choose (bytes_eq b.request.method (codes "POST")) post (
              choose (bytes_eq b.request.method (codes "HEAD")) head
                (refused-Answered hooks.client b quiet before.finished)))))
