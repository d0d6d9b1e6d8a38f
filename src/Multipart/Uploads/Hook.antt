-- ===== src/Multipart/Uploads/Hook.antt =====
-- The call of the hook behind a body with uploads, and what leaves the exchange as it is.
use bluewing_cpp_server.Prelude.{
  ℕ, ◌*◌, ◌%◌, ltb, Bool, true, false, Option, none, some, List, [], ◌∷◌, ◌++◌, ◌≡◌, refl, sym, ◌∙◌,
  subst, arith, if◌then◌else◌, Bytes, length,
}
use bluewing_cpp_server.HeapBuffer
use bluewing_cpp_server.Request.{Platform}
use bluewing_cpp_server.Request.Lifecycle.{Exchange}
use bluewing_cpp_server.Request.Lifecycle.Answers.{
  IsQuiet, Answered, AreWellBehaved, Answered-trans, before-Answered, hook-Answered,
}
use bluewing_cpp_server.Multipart.Uploads.{
  Upload, any_open, Multipart, UploadHooks, post_handler, call_handler, multipart_call_hook,
  add_item,
}

pub any_open-append :
    (uploads : List Upload) (u : Upload)
    → any_open (uploads ++ u ∷ []) ≡ false
    → any_open uploads ≡ false
unfolding any_open
any_open-append [] u e = refl
any_open-append (v ∷ uploads) u e = let f = any_open-append uploads u in ground (arith, e, f)

kept_if :
    (b : Bool) (x y : HeapBuffer.HeapBuffer)
    → (hb : HeapBuffer.HeapBuffer) × ((if b then some x else some y) ≡ some hb)
kept_if true x y = (x, refl)
kept_if false x y = (y, refl)

-- With memory, a buffer that is added to is there.
reserve_room :
    (alloc : ℕ → Bool)
    → ((n : ℕ) → alloc n ≡ true)
    → (ctx : Option HeapBuffer.HeapBuffer) (n : ℕ)
    → (hb : HeapBuffer.HeapBuffer) × (HeapBuffer.reserve alloc ctx n ≡ some hb)
unfolding HeapBuffer.reserve
reserve_room alloc room none n =
    let init_alloc = n * 3 % HeapBuffer.size_mod in
    let fresh : HeapBuffer.HeapBuffer = record {
      allocated = init_alloc;
      length = 0;
      offset = 0;
      buffer = [];
    } in
    (fresh, rw (room init_alloc) refl)
reserve_room alloc room (some hb) n =
    let new_length = HeapBuffer.size_add hb.length n in
    let larger = HeapBuffer.grow new_length new_length hb.allocated in
    rw (room larger) (kept_if (ltb hb.allocated new_length) (record hb { allocated = larger }) hb)

pub neither :
    {A : Type 0} (b c : Bool) (x y z : A)
    → b ≡ false
    → c ≡ false
    → (if b then x else if c then y else z) ≡ z
neither b c x y z e f = rw (e, f) refl

module _ (P : Platform) (K : Type 0) where
  -- An exchange as finished as before, and with as much sent.
  pub record Keeps (x y : Exchange P) : Type 0 where
    pub same_sent : length y.sent ≡ length x.sent
    pub same_responded : y.request.responded ≡ x.request.responded
    pub same_auto : y.request.auto_finish ≡ x.request.auto_finish

  -- Hooks that only watch an upload, and a handler that returns and finishes its request at most once.
  pub record AreQuiet (hooks : UploadHooks P K) : Type 0 where
    pub client : IsQuiet P hooks.client
    pub start : (u : Upload) (x : Exchange P) → Keeps x (hooks.on_upload_start u x).0
    pub chunk : (u : Upload) (b : Bytes) (x : Exchange P) → Keeps x (hooks.on_upload_chunk u b x)
    pub finish : (u : Upload) (x : Exchange P) → Keeps x (hooks.on_upload_done u x)
    pub post :
        (uploads : List Upload) → AreWellBehaved P (post_handler P K hooks.on_upload_post uploads)

  abbrev pub count : Bool → ℕ
  count b = if b then 1 else 0

  -- The handler has been called once or not at all, with as many responses since `x`; it has been once
  -- the body has ended and the files are closed.
  pub record Answers (x : Exchange P) (ctx : Multipart P K) : Type 0 where
    pub childless : ctx.child ≡ none
    pub answered : Answered P x (count ctx.called_handler) true ctx.exchange
    pub in_the_end : ctx.done ≡ true → any_open ctx.uploads ≡ false → ctx.called_handler ≡ true

  Answered-Keeps :
      {x y z : Exchange P} {n : ℕ} → Answered P x n true y → Keeps y z → Answered P x n true z
  Answered-Keeps a k = record {
    responses = k.same_sent ∙ a.responses;
    finished = k.same_responded ∙ a.finished;
    auto = k.same_auto ∙ a.auto;
  }

  choose :
      (b : Bool) (x : Exchange P) {o o' : Option (Multipart P K)}
      → (b ≡ true → (y : Multipart P K) × (o ≡ some y) × Answers x y)
      → (b ≡ false → (y : Multipart P K) × (o' ≡ some y) × Answers x y)
      → (y : Multipart P K) × ((if b then o else o') ≡ some y) × Answers x y
  choose true x t f = t refl
  choose false x t f = f refl

  -- The call of the handler, and what is done before and behind it.
  pub handler-Answered :
      (hooks : UploadHooks P K) (ctx : Multipart P K)
      → AreQuiet hooks
      → ctx.exchange.request.responded ≡ true
      → ctx.exchange.request.auto_finish ≡ true
      → (y : Exchange P) × (call_handler P K hooks ctx
          ≡ some (record ctx { called_handler = true; exchange = y }))
        × Answered P ctx.exchange 1 true y
  unfolding call_handler
  handler-Answered hooks ctx q r auto =
      let (b, e, before) = before-Answered P ctx.exchange r in
      let (y, f, after) =
        hook-Answered P hooks.client (post_handler P K hooks.on_upload_post ctx.uploads) b q.client
          (q.post ctx.uploads) before.finished (before.auto ∙ auto) in
      (y, rw (e, f) refl, Answered-trans P before after)

  pub call-Answers :
      (hooks : UploadHooks P K) (x : Exchange P) (ctx : Multipart P K)
      → AreQuiet hooks
      → x.request.auto_finish ≡ true
      → ctx.child ≡ none
      → Answered P x (count ctx.called_handler) true ctx.exchange
      → (y : Multipart P K) × (multipart_call_hook P K hooks ctx ≡ some y) × Answers x y
  unfolding multipart_call_hook
  call-Answers hooks x ctx q auto childless a =
      choose ctx.called_handler x
        (λ c. (ctx, refl, record { childless = childless; answered = a; in_the_end = λ d o. c }))
        (λ c.
          choose (any_open ctx.uploads) x
            (λ o. (
              ctx,
              refl,
              record {
                childless = childless;
                answered = a;
                in_the_end = λ d n. ground (arith, o, n);
              },
            ))
            (λ o.
              (let (y, e, after) = handler-Answered hooks ctx q a.finished (a.auto ∙ auto) in
                let a' = subst (λ k. Answered P x (count k) true ctx.exchange) c a in
                (
                  record ctx { called_handler = true; exchange = y },
                  e,
                  record {
                    childless = childless;
                    answered = Answered-trans P a' after;
                    in_the_end = λ d n. refl;
                  },
                ))))

  pub add_item-Keeps :
      ((n : ℕ) → P.alloc n ≡ true)
      → (x : Exchange P) (name : Bytes)
      → (y : Exchange P) × (add_item P K x name ≡ some y) × Keeps x y
  unfolding add_item HeapBuffer.add HeapBuffer.append HeapBuffer.buffer
  add_item-Keeps room x name =
      let (hb, e) = reserve_room P.alloc room x.request.buffer 1 in
      rw e (_, refl, record { same_sent = refl; same_responded = refl; same_auto = refl })

  pub Answers-Keeps :
      (x : Exchange P) (ctx next : Multipart P K)
      → Answers x ctx
      → Keeps ctx.exchange next.exchange
      → next.child ≡ ctx.child
      → next.called_handler ≡ ctx.called_handler
      → next.done ≡ ctx.done
      → (any_open next.uploads ≡ false → any_open ctx.uploads ≡ false)
      → Answers x next
  Answers-Keeps x ctx next a k n c d o = record {
    childless = n ∙ a.childless;
    answered =
        subst (λ b. Answered P x (count b) true next.exchange) (sym c)
          (Answered-Keeps a.answered k);
    in_the_end = λ e f. c ∙ a.in_the_end (sym d ∙ e) (o f);
  }

  pub Keeps-if :
      (b : Bool) (x y z : Exchange P) → Keeps x y → Keeps x z → Keeps x (if b then y else z)
  Keeps-if true x y z k l = k
  Keeps-if false x y z k l = l

  pub Keeps-refl : (x : Exchange P) → Keeps x x
  Keeps-refl x = record { same_sent = refl; same_responded = refl; same_auto = refl }
