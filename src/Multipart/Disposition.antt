-- ===== src/Multipart/Disposition.antt =====
-- `parse_disposition` against the text of a content-disposition header.
use bluewing_cpp_server.Prelude.{
  ℕ, ◌+◌, true, List, [], ◌∷◌, ◌++◌, ◌≡◌, ◌≢◌, ◌∙◌, refl, sym, ap, arith, Bytes, All, codes, length,
  append_assoc, length-append, take_all,
}
use bluewing_cpp_server.NvHash
use bluewing_cpp_server.UtHash.{UtHash}
use bluewing_cpp_server.Multipart.{
  s_param_name, s_param_value_end, Scan, step, scan, parse_disposition,
}
use bluewing_cpp_server.Multipart.Steps.{
  IsValueChar, IsParamName, IsParam, param_text, params_text, scanned, put_params, set_ex-at,
  set_ex_type, scan-type, scan-name, scan-value, scan-space, scan-quote, scan-value_start_open,
}

module _ (H : UtHash Bytes) where
  -- One parameter, from behind the ';' in front of it.
  scan-param :
      (text pre name value rest : Bytes) (k : ℕ) (table : H.Table)
      → IsParam (name, value)
      → text ≡ pre ++ param_text name value rest
      → length pre ≢ 0
      → scan H text (param_text name value rest) (length pre) (scanned H s_param_name 0 0 k table)
        ≡ scan H text rest (length pre + 1 + length name + 1 + 1 + length value + 1) (
            scanned H s_param_value_end 0 0
              (length name)
              (NvHash.set_ex H table (length name) name (length value) value true))
  scan-param text pre name value rest k table (n, v) e z =
      let at = length pre + 1 in
      let value_at = at + length name + 1 + 1 in
      let behind = b'"' ∷ (value ++ b'"' ∷ rest) in
      let whole : text
          ≡ (pre ++ b' ' ∷ []) ++ (name ++ ((b'=' ∷ b'"' ∷ []) ++ (value ++ b'"' ∷ rest))) =
        e ∙ sym (append_assoc pre (b' ' ∷ []) (name ++ b'=' ∷ behind)) in
      let len = length-append pre (b' ' ∷ []) in
      scan-space H text (name ++ b'=' ∷ behind) (length pre) k table
      ∙ (scan-name H text name behind at k table n (λ q. omega arith)
          ∙ (scan-quote H text (value ++ b'"' ∷ rest) (at + length name + 1) at (length name) table
              ∙ (scan-value H text value rest value_at at (length name) table v (λ q. omega arith)
                  ∙ ap
                      (λ t.
                        scan H text rest (value_at + length value + 1)
                          (scanned H s_param_value_end 0 0 (length name) (t)))
                      (set_ex-at H table text (pre ++ b' ' ∷ []) name (b'=' ∷ b'"' ∷ []) value
                        (b'"' ∷ rest) at value_at whole (omega (arith, len))
                        (omega (arith, len))))))

  scan-semicolon :
      (text rest : Bytes) (i k : ℕ) (table : H.Table)
      → scan H text (b';' ∷ rest) i (scanned H s_param_value_end 0 0 k table)
        ≡ scan H text rest (i + 1) (scanned H s_param_name 0 0 k table)
  unfolding scan step
  scan-semicolon text rest i k table = refl

  scan_end : (text : Bytes) (i : ℕ) (s : Scan H) → scan H text [] i s ≡ (s.disposition, true)
  unfolding scan
  scan_end text i s = refl

  scan-params :
      (text pre name value : Bytes) (params : List (Bytes × Bytes)) (k : ℕ) (table : H.Table)
      → IsParam (name, value)
      → All IsParam params
      → text ≡ pre ++ params_text name value params
      → length pre ≢ 0
      → scan H text
          (params_text name value params)
          (length pre)
          (scanned H s_param_name 0 0 k table)
        ≡ (put_params H table ((name, value) ∷ params), true)
  unfolding params_text put_params
  scan-params text pre name value [] k table p ps e z =
      scan-param text pre name value [] k table p e z ∙ scan_end text _ _
  scan-params text pre name value ((name', value') ∷ params) k table p (q, ps) e z =
      let more = params_text name' value' params in
      let before = pre ++ (b' ' ∷ (name ++ b'=' ∷ b'"' ∷ (value ++ b'"' ∷ b';' ∷ []))) in
      let table' = NvHash.set_ex H table (length name) name (length value) value true in
      let place = length pre + 1 + length name + 1 + 1 + length value + 1 in
      let quoted : Bytes = b'"' ∷ b';' ∷ [] in
      let len : place + 1 ≡ length before = omega (
        arith,
        length-append pre (b' ' ∷ (name ++ b'=' ∷ b'"' ∷ (value ++ quoted))),
        length-append name (b'=' ∷ b'"' ∷ (value ++ quoted)),
        length-append value quoted,
      ) in
      let whole : text ≡ before ++ more =
        e
        ∙ rw (
          append_assoc pre (b' ' ∷ (name ++ b'=' ∷ b'"' ∷ (value ++ quoted))) more,
          append_assoc name (b'=' ∷ b'"' ∷ (value ++ quoted)) more,
          append_assoc value quoted more,
        ) in
      scan-param text pre name value (b';' ∷ more) k table p e z
      ∙ (scan-semicolon text more place (length name) table'
          ∙ rw len (
              scan-params text before name' value' params (length name) table' q ps whole
                (λ h. omega arith)))

  -- A disposition of a type, with neither ';' nor NUL, and of one or more parameters with quoted
  -- values is accepted, and sets the type and then the parameters in their order; names are not
  -- empty and have no space in front, and no name or value has a character that ends it.
  pub parse_disposition-params_text :
      (table : H.Table) (type name value : Bytes) (params : List (Bytes × Bytes))
      → All (λ c. (c ≢ b';') × (c ≢ 0)) type
      → IsParam (name, value)
      → All IsParam params
      → parse_disposition H table
          (length (type ++ b';' ∷ params_text name value params))
          (type ++ b';' ∷ params_text name value params)
        ≡ (
          put_params H
              (NvHash.set_ex H (NvHash.clear H table) 4 (codes "type") (length type) type true)
              ((name, value) ∷ params),
          true,
        )
  unfolding parse_disposition
  parse_disposition-params_text table type name value params t p ps =
      let text = type ++ b';' ∷ params_text name value params in
      let before = type ++ b';' ∷ [] in
      let len : length type + 1 ≡ length before = omega (arith, length-append type (b';' ∷ [])) in
      let zero_add : 0 + length type ≡ length type = omega arith in
      rw (take_all (length text) text (omega arith)) (
        scan-type H text type (params_text name value params) 0 0 (NvHash.clear H table) t
        ∙ rw
            (
              zero_add,
              set_ex_type H (NvHash.clear H table) type (b';' ∷ params_text name value params),
              len,
            )
            (scan-params text before name value params 0 _ p ps
              (sym (append_assoc type (b';' ∷ []) (params_text name value params)))
              (λ h. omega arith)))

  -- A parameter at the end of a disposition whose value is neither quoted nor followed by a ';' is
  -- accepted and not set: the text has no NUL for the loop to come to.
  pub parse_disposition_unended :
      (table : H.Table) (type name value : Bytes)
      → All (λ c. (c ≢ b';') × (c ≢ 0)) type
      → IsParamName name
      → All IsValueChar value
      → parse_disposition H table
          (length (type ++ b';' ∷ b' ' ∷ (name ++ b'=' ∷ value)))
          (type ++ b';' ∷ b' ' ∷ (name ++ b'=' ∷ value))
        ≡ (NvHash.set_ex H (NvHash.clear H table) 4 (codes "type") (length type) type true, true)
  unfolding parse_disposition
  parse_disposition_unended table type name value t n v =
      let rest = b' ' ∷ (name ++ b'=' ∷ value) in
      let text = type ++ b';' ∷ rest in
      let zero_add : 0 + length type ≡ length type = omega arith in
      rw (take_all (length text) text (omega arith)) (
        scan-type H text type rest 0 0 (NvHash.clear H table) t
        ∙ rw (zero_add, set_ex_type H (NvHash.clear H table) type (b';' ∷ rest))
            (scan-space H text (name ++ b'=' ∷ value) (length type + 1) 0 _
              ∙ (scan-name H text name value (length type + 1 + 1) 0 _ n (λ h. omega arith)
                  ∙ scan-value_start_open H text value _ _ _ _ v)))
