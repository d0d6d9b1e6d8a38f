-- ===== src/Multipart/Steps.antt =====
-- What the loop of `parse_disposition` does with each part of a header.
use bluewing_cpp_server.Prelude.{
  ℕ, ◌+◌, ◌-◌, true, false, List, [], ◌∷◌, ◌++◌, ◌≡◌, ◌≢◌, refl, arith, ◌==◌, if◌then◌else◌, Bytes,
  All, codes, length, take, drop, append_assoc, length-append, drop-append, take-append, take_all,
}
use bluewing_cpp_server.CLib.{isspace}
use bluewing_cpp_server.NvHash
use bluewing_cpp_server.UtHash.{UtHash}
use bluewing_cpp_server.Multipart.{
  Phase, s_type, s_param_name, s_param_value_start, s_param_value, s_param_value_end, Scan,
  type_step, name_step, value_step, step, scan,
}

abbrev pub IsNameChar : ℕ → Type 0
IsNameChar c = (c ≢ b'=') × (c ≢ 0)

abbrev pub IsValueChar : ℕ → Type 0
IsValueChar c = (c ≢ b'"') × (c ≢ b';') × (c ≢ 0)

-- A parameter's name: not empty, no space in front, and neither '=' nor NUL in it.
abbrev pub IsParamName : Bytes → Type 0
IsParamName [] = ⊥
IsParamName (c ∷ name) = (isspace c ≡ false) × All IsNameChar (c ∷ name)

abbrev pub IsParam : Bytes × Bytes → Type 0
IsParam (name, value) = IsParamName name × All IsValueChar value

-- ` name="value"`, and what stands behind it
abbrev pub param_text : Bytes → Bytes → Bytes → Bytes
param_text name value rest = b' ' ∷ (name ++ b'=' ∷ b'"' ∷ (value ++ b'"' ∷ rest))

-- ` name="value"; name="value"`
unfoldable pub params_text : Bytes → Bytes → List (Bytes × Bytes) → Bytes
params_text name value [] = param_text name value []
params_text name value ((name', value') ∷ rest) =
    param_text name value (b';' ∷ params_text name' value' rest)

module _ (H : UtHash Bytes) where
  -- The variables of the loop.
  abbrev pub scanned : Phase → ℕ → ℕ → ℕ → H.Table → Scan H
  scanned phase name_begin value_begin name_len table = record {
    phase = phase;
    name_begin = name_begin;
    value_begin = value_begin;
    name_len = name_len;
    disposition = table;
  }

  -- The parameters put into the table, in their order.
  unfoldable pub put_params : H.Table → List (Bytes × Bytes) → H.Table
  put_params table [] = table
  put_params table ((name, value) ∷ rest) =
      put_params (NvHash.set_ex H table (length name) name (length value) value true) rest

  -- What is set goes by the characters that are copied.
  pub set_ex-at :
      (table : H.Table) (text pre name mid value post : Bytes) (nb vb : ℕ)
      → text ≡ pre ++ (name ++ (mid ++ (value ++ post)))
      → nb ≡ length pre
      → vb ≡ length pre + (length name + length mid)
      → NvHash.set_ex H table (length name) (drop nb text) (length value) (drop vb text) true
        ≡ NvHash.set_ex H table (length name) name (length value) value true
  unfolding NvHash.set_ex
  set_ex-at table text pre name mid value post nb vb e n v =
      let head : pre ++ (name ++ (mid ++ (value ++ post)))
          ≡ (pre ++ (name ++ mid)) ++ (value ++ post) =
        rw
          (append_assoc pre (name ++ mid) (value ++ post), append_assoc name mid (value ++ post)) in
      let len : vb ≡ length (pre ++ (name ++ mid)) =
        omega (arith, v, length-append pre (name ++ mid), length-append name mid) in
      let name_at : take (length name) (drop nb text) ≡ name =
        rw (e, n, drop-append pre (name ++ (mid ++ (value ++ post))))
          (take-append name (mid ++ (value ++ post))) in
      let value_at : take (length value) (drop vb text) ≡ value =
        rw (e, head, len, drop-append (pre ++ (name ++ mid)) (value ++ post))
          (take-append value post) in
      rw (
        name_at,
        value_at,
        take_all (length name) name (omega arith),
        take_all (length value) value (omega arith),
      )

  pub set_ex_type :
      (table : H.Table) (type rest : Bytes)
      → NvHash.set_ex H table 4 (codes "type") (length type) (type ++ rest) true
        ≡ NvHash.set_ex H table 4 (codes "type") (length type) type true
  unfolding NvHash.set_ex
  set_ex_type table type rest =
      rw (take-append type rest, take_all (length type) type (omega arith))

  pub scan-type :
      (text type rest : Bytes) (i k : ℕ) (table : H.Table)
      → All (λ c. (c ≢ b';') × (c ≢ 0)) type
      → scan H text (type ++ b';' ∷ rest) i (scanned s_type 0 0 k table)
        ≡ scan H text rest (i + length type + 1) (
            scanned s_param_name 0 0 k
              (NvHash.set_ex H table 4 (codes "type") (i + length type) text true))
  unfolding scan step type_step
  scan-type text [] rest i k table h = ground arith
  scan-type text (c ∷ type) rest i k table ((n, z), h) =
      ground (arith, scan-type text type rest (i + 1) k table h)

  pub scan-name_rest :
      (text name rest : Bytes) (i b k : ℕ) (table : H.Table)
      → All IsNameChar name
      → b ≢ 0
      → scan H text (name ++ b'=' ∷ rest) i (scanned s_param_name b 0 k table)
        ≡ scan H text rest
            (i + length name + 1)
            (scanned s_param_value_start b 0 (i + length name - b) table)
  unfolding scan step name_step
  scan-name_rest text [] rest i b k table h z = ground arith
  scan-name_rest text (c ∷ name) rest i b k table ((n, m), h) z =
      ground (arith, scan-name_rest text name rest (i + 1) b k table h z)

  pub scan-name :
      (text name rest : Bytes) (i k : ℕ) (table : H.Table)
      → IsParamName name
      → i ≢ 0
      → scan H text (name ++ b'=' ∷ rest) i (scanned s_param_name 0 0 k table)
        ≡ scan H text rest
            (i + length name + 1)
            (scanned s_param_value_start i 0 (length name) table)
  unfolding scan step name_step
  scan-name text [] rest i k table h z = absurd h
  scan-name text (c ∷ name) rest i k table (sp, ((n, m), h)) z =
      ground (arith, sp, scan-name_rest text name rest (i + 1) i k table h z)

  pub scan-value_rest :
      (text value rest : Bytes) (i nb b k : ℕ) (table : H.Table)
      → All IsValueChar value
      → b ≢ 0
      → scan H text (value ++ b'"' ∷ rest) i (scanned s_param_value nb b k table)
        ≡ scan H text rest (i + length value + 1) (
            scanned s_param_value_end 0 0 k
              (NvHash.set_ex H table k (drop nb text) (i + length value - b) (drop b text) true))
  unfolding scan step value_step
  scan-value_rest text [] rest i nb b k table h z = ground arith
  scan-value_rest text (c ∷ value) rest i nb b k table ((n, m, o), h) z =
      ground (arith, scan-value_rest text value rest (i + 1) nb b k table h z)

  pub scan-value :
      (text value rest : Bytes) (i nb k : ℕ) (table : H.Table)
      → All IsValueChar value
      → i ≢ 0
      → scan H text (value ++ b'"' ∷ rest) i (scanned s_param_value nb 0 k table)
        ≡ scan H text rest (i + length value + 1) (
            scanned s_param_value_end 0 0 k
              (NvHash.set_ex H table k (drop nb text) (length value) (drop i text) true))
  unfolding scan step value_step
  scan-value text [] rest i nb k table h z = ground arith
  scan-value text (c ∷ value) rest i nb k table ((n, m, o), h) z =
      ground (arith, scan-value_rest text value rest (i + 1) nb i k table h z)

  pub scan-space :
      (text rest : Bytes) (i k : ℕ) (table : H.Table)
      → scan H text (b' ' ∷ rest) i (scanned s_param_name 0 0 k table)
        ≡ scan H text rest (i + 1) (scanned s_param_name 0 0 k table)
  unfolding scan step name_step isspace
  scan-space text rest i k table = refl

  pub scan-quote :
      (text rest : Bytes) (i nb k : ℕ) (table : H.Table)
      → scan H text (b'"' ∷ rest) i (scanned s_param_value_start nb 0 k table)
        ≡ scan H text rest (i + 1) (scanned s_param_value nb 0 k table)
  unfolding scan step
  scan-quote text rest i nb k table = refl

  pub scan-value_open :
      (text value : Bytes) (i nb b k : ℕ) (table : H.Table)
      → All IsValueChar value
      → (scan H text value i (scanned s_param_value nb b k table)) ≡ (table, true)
  unfolding scan step value_step
  scan-value_open text [] i nb b k table h = refl
  scan-value_open text (c ∷ value) i nb b k table ((n, m, o), h) =
      ground (arith, scan-value_open text value (i + 1) nb (if b == 0 then i else b) k table h)

  pub scan-value_start_open :
      (text value : Bytes) (i nb k : ℕ) (table : H.Table)
      → All IsValueChar value
      → (scan H text value i (scanned s_param_value_start nb 0 k table)) ≡ (table, true)
  unfolding scan step value_step
  scan-value_start_open text [] i nb k table h = refl
  scan-value_start_open text (c ∷ value) i nb k table ((n, m, o), h) =
      ground (arith, scan-value_open text value (i + 1) nb i k table h)
