-- ===== src/Request/Form/RoundTrip.antt =====
-- The item loop against URL-encoded text.
use bluewing_cpp_server.Prelude.{
  ℕ, zero, suc, inl, inr, ◌+◌, ◌-◌, ◌<◌, Bool, true, false, some, List, [], ◌∷◌, ◌++◌, ◌≡◌, ◌≢◌,
  ◌∙◌, refl, arith, ◌>>=◌, Bytes, All, codes, length, take, drop, append_assoc, length-append,
}
use bluewing_cpp_server.Util.{find_char}
use bluewing_cpp_server.Util.Decode.{
  percent_encode, length-percent_encode, urldecode-percent_encode,
}
use bluewing_cpp_server.NvHash
use bluewing_cpp_server.CLib.{cstr, IsCstr}
use bluewing_cpp_server.HeapBuffer
use bluewing_cpp_server.Request.{Platform, Request, header}
use bluewing_cpp_server.Util.{begins_with}
use bluewing_cpp_server.Request.Form.{split_at, decode_part, add_item, form_loop, parse_post_data}
use bluewing_cpp_server.Request.Form.Text.{
  KeepsItems, split_at_hit, split_at_miss, drop_past, percent_encode-without, bind_all-some,
  form_text, All-append, cstr-append, IsPair,
}

module _ (P : Platform) (slack : ℕ) where
  open P use {names}

  -- One round, before an '&'.
  form_step :
      (fuel : ℕ) (items : names.Table) (name value next : Bytes) (left : ℕ) (mem : Bytes)
      → All (λ b. b ≢ b'=') name
      → All (λ b. b ≢ b'&') value
      → left ≡ length name + suc (length value + suc (length mem))
      → form_loop P slack (suc fuel) items (name ++ b'=' ∷ (value ++ b'&' ∷ (mem ++ next))) left ≡ (
          add_item P items
            (decode_part slack (name ++ b'=' ∷ (value ++ b'&' ∷ (mem ++ next))) (length name))
            (decode_part slack (value ++ b'&' ∷ (mem ++ next)) (length value))
          >>= λ items'. form_loop P slack fuel items' (mem ++ next) (length mem))
  unfolding form_loop
  form_step fuel items name value next left mem n v e =
      let behind = b'&' ∷ (mem ++ next) in
      let name_end : split_at b'=' (name ++ b'=' ∷ (value ++ behind)) left ≡ (true, length name) =
        split_at_hit b'=' name (value ++ behind) left (length value + suc (length mem)) n
          (omega arith) (omega (arith, length-append value behind, length-append mem next)) in
      let value_at : drop (length name + 1) (name ++ b'=' ∷ (value ++ behind)) ≡ value ++ behind =
        drop_past name (b'=') (value ++ behind) in
      let value_left : left - length name - 1 ≡ length value + suc (length mem) = omega arith in
      let value_end =
        split_at_hit b'&' value (mem ++ next) (length value + suc (length mem)) (length mem) v refl
          (omega (arith, length-append mem next)) in
      let mem_left : length value + suc (length mem) - length value - 1 ≡ length mem =
        omega arith in
      rw (name_end, value_at, value_left, value_end, drop_past value (b'&') (mem ++ next), mem_left)

  form_end :
      (fuel : ℕ) (items : names.Table) (mem : Bytes)
      → 0 < fuel
      → form_loop P slack fuel items mem 0 ≡ some items
  unfolding form_loop split_at find_char
  form_end zero items mem p = absurd (omega arith)
  form_end (suc fuel) items mem p = refl

  -- The last round, and the end of the loop.
  form_last :
      (fuel : ℕ) (items : names.Table) (name value next : Bytes) (left : ℕ)
      → All (λ b. b ≢ b'=') name
      → All (λ b. b ≢ b'&') value
      → left ≡ length name + suc (length value)
      → 0 < fuel
      → form_loop P slack (suc fuel) items (name ++ b'=' ∷ (value ++ next)) left
        ≡ add_item P items
            (decode_part slack (name ++ b'=' ∷ (value ++ next)) (length name))
            (decode_part slack (value ++ next) (length value))
  unfolding form_loop
  form_last fuel items name value next left n v e p =
      let name_end : split_at b'=' (name ++ b'=' ∷ (value ++ next)) left ≡ (true, length name) =
        split_at_hit b'=' name (value ++ next) left (length value) n e
          (omega (arith, length-append value next)) in
      let value_left : left - length name - 1 ≡ length value = omega arith in
      let none_left : length value - length value - 1 ≡ 0 = omega arith in
      rw
        (
          name_end,
          drop_past name (b'=') (value ++ next),
          value_left,
          split_at_miss b'&' value next v,
          none_left,
        )
        (bind_all-some _ _ (λ items'. form_end fuel items' _ p))

  -- The table with the pairs set in their order.
  unfoldable pub set_items : names.Table → List (Bytes × Bytes) → names.Table
  set_items items [] = items
  set_items items ((name, value) ∷ rest) = set_items (NvHash.set names items name value false) rest

  module _ (keep : ℕ → Bool) (literal : KeepsItems keep) where
    no_equals : (s : Bytes) → All (λ b. b ≢ b'=') (percent_encode keep s)
    no_equals s = percent_encode-without keep (b'=') s (λ c k. (literal c k).2) (inl refl)

    no_nul : (s : Bytes) → IsCstr (percent_encode keep s)
    no_nul s = percent_encode-without keep 0 s (λ c k. (literal c k).4) (inr (inr refl))

    no_ampersand : (s : Bytes) → All (λ b. b ≢ b'&') (percent_encode keep s)
    no_ampersand s = percent_encode-without keep (b'&') s (λ c k. (literal c k).3) (inr (inl refl))

    form_text-IsCstr :
        (name value : Bytes) (rest : List (Bytes × Bytes)) → IsCstr (form_text keep name value rest)
    unfolding form_text
    form_text-IsCstr name value [] =
        All-append (λ c. c ≢ 0) (percent_encode keep name) _ (no_nul name) ((λ e. cc), no_nul value)
    form_text-IsCstr name value ((name', value') ∷ rest) =
        All-append (λ c. c ≢ 0) (percent_encode keep name) _ (no_nul name)
          (
            (λ e. cc),
            All-append (λ c. c ≢ 0) (percent_encode keep value) _ (no_nul value)
                ((λ e. cc), form_text-IsCstr name' value' rest),
          )

    decode-encoded :
        (s after : Bytes)
        → All (λ c. c < 256) s
        → decode_part slack (percent_encode keep s ++ after) (length (percent_encode keep s))
          ≡ some (record { ok = true; out = s; memory = s ++ 0 ∷ [] })
    decode-encoded s after h =
        urldecode-percent_encode keep true s after (length (percent_encode keep s) + slack)
          (λ c k. let l = literal c k in (l.0, l.1)) h (omega (arith, length-percent_encode keep s))

    add-encoded :
        (items : names.Table) (name value after_name after_value : Bytes)
        → All (λ c. c < 256) name
        → All (λ c. c < 256) value
        → add_item P items
            (decode_part slack
              (percent_encode keep name ++ after_name)
              (length (percent_encode keep name)))
            (decode_part slack
              (percent_encode keep value ++ after_value)
              (length (percent_encode keep value)))
          ≡ some (NvHash.set names items name value false)
    unfolding add_item
    add-encoded items name value after_name after_value n v =
        rw (decode-encoded name after_name n) (rw (decode-encoded value after_value v))

    -- The text of one pair and more sets them all, in their order.
    pub form_loop-form_text :
        (fuel : ℕ) (items : names.Table) (name value next : Bytes) (rest : List (Bytes × Bytes))
        (left : ℕ)
        → IsPair (name, value)
        → All IsPair rest
        → left ≡ length (form_text keep name value rest)
        → length rest + 1 < fuel
        → form_loop P slack fuel items (form_text keep name value rest ++ next) left
          ≡ some (set_items items ((name, value) ∷ rest))
    unfolding form_text set_items
    form_loop-form_text zero items name value next rest left p ps e f = absurd (omega arith)
    form_loop-form_text (suc fuel) items name value next [] left (n, v) ps e f =
        let len = length-append (percent_encode keep name) (b'=' ∷ percent_encode keep value) in
        rw (append_assoc (percent_encode keep name) (b'=' ∷ percent_encode keep value) next) (
          form_last fuel items (percent_encode keep name) (percent_encode keep value) next left
            (no_equals name) (no_ampersand value) (omega (arith, len)) (omega arith)
          ∙ add-encoded items name value _ _ n v)
    form_loop-form_text (suc fuel) items name value next ((name', value') ∷ rest) left (n, v)
          (q, ps) e f =
        let more = form_text keep name' value' rest in
        let len =
          length-append (percent_encode keep name)
            (b'=' ∷ (percent_encode keep value ++ b'&' ∷ more)) in
        let len' = length-append (percent_encode keep value) (b'&' ∷ more) in
        rw
          (
            append_assoc (percent_encode keep name)
                (b'=' ∷ (percent_encode keep value ++ b'&' ∷ more)) next,
            append_assoc (percent_encode keep value) (b'&' ∷ more) next,
          )
          (form_step fuel items (percent_encode keep name) (percent_encode keep value) next left
              more (no_equals name) (no_ampersand value) (omega (arith, e, len, len'))
            ∙ rw (add-encoded items name value _ _ n v) (
                form_loop-form_text fuel (NvHash.set names items name value false) name' value' next
                  rest (length more) q ps refl (omega arith)))

-- Each pair has its '='.
length-form_text :
    (keep : ℕ → Bool) (name value : Bytes) (rest : List (Bytes × Bytes))
    → length rest < length (form_text keep name value rest)
unfolding form_text
length-form_text keep name value [] =
    omega (arith, length-append (percent_encode keep name) (b'=' ∷ percent_encode keep value))
length-form_text keep name value ((name', value') ∷ rest) =
    let more = form_text keep name' value' rest in
    omega (
      arith,
      length-append (percent_encode keep name) (b'=' ∷ (percent_encode keep value ++ b'&' ∷ more)),
      length-append (percent_encode keep value) (b'&' ∷ more),
      length-form_text keep name' value' rest,
    )

-- The body of a request with the content type of a form, of URL-encoded pairs with a NUL behind
-- them, sets the items of these pairs in their order, and is marked as parsed, if it was not
-- before.
pub parse_post_data-form_text :
    (P : Platform) (ctx : Request P) (keep : ℕ → Bool) (name value behind memory : Bytes)
    (rest : List (Bytes × Bytes))
    → KeepsItems keep
    → IsPair (name, value)
    → All IsPair rest
    → ctx.parsed_post_data ≡ false
    → begins_with (header P ctx (codes "content-type")) (codes "application/x-www-form-urlencoded")
      ≡ true
    → HeapBuffer.buffer ctx.buffer ≡ some memory
    → take (HeapBuffer.pending ctx.buffer) memory ≡ form_text keep name value rest ++ 0 ∷ behind
    → parse_post_data P ctx
      ≡ some (record ctx {
        parsed_post_data = true;
        post_items = set_items P 0 ctx.post_items ((name, value) ∷ rest);
      })
unfolding parse_post_data
parse_post_data-form_text P ctx keep name value behind memory rest literal p ps new type buf text =
    let whole = form_text keep name value rest in
    let seen : cstr (take (HeapBuffer.pending ctx.buffer) memory) ≡ whole =
      rw text (cstr-append whole behind (form_text-IsCstr P 0 keep literal name value rest)) in
    let parsed =
      form_loop-form_text P 0 keep literal (suc (length whole)) ctx.post_items name value (0 ∷ [])
        rest (length whole) p ps refl (omega (arith, length-form_text keep name value rest)) in
    rw (type, buf, seen, parsed) (rw new)
