-- ===== src/Multipart.antt =====
-- Lacewing/src/webserver/multipart.c: `parse_disposition`, the content-disposition header of a part
-- of a body.
pub mod Steps
pub mod Disposition
pub mod Uploads
use bluewing_cpp_server.Prelude.{
  ℕ, ◌+◌, ◌-◌, Bool, true, false, ◌&&◌, ◌||◌, List, [], ◌∷◌, ◌==◌, if◌then◌else◌, Bytes, codes,
  take, drop,
}
use bluewing_cpp_server.CLib.{isspace}
use bluewing_cpp_server.NvHash
use bluewing_cpp_server.UtHash.{UtHash}

-- The `state` of the loop.
pub data Phase : Type 0 where
  s_type : Phase
  s_param_name : Phase
  s_param_value_start : Phase
  s_param_value : Phase
  s_param_value_end : Phase

module _ (H : UtHash Bytes) where
  -- The variables of the loop; 0 stands for a beginning that is not set.
  pub record Scan : Type 0 where
    pub phase : Phase
    pub name_begin : ℕ
    pub value_begin : ℕ
    pub name_len : ℕ
    pub disposition : H.Table

  -- A `continue`, or a `return`.
  pub data Turn : Type 0 where
    go_on : Scan → Turn
    stop : Bool → H.Table → Turn

  -- The character at `i` in a type.
  unfoldable pub type_step : Bytes → ℕ → ℕ → Scan → Turn
  type_step text i c s =
      let table = NvHash.set_ex H s.disposition 4 (codes "type") i text true in
      if c == b';' || c == 0
      then (if c == 0
          then stop true table
          else go_on (record s { phase = s_param_name; disposition = table }))
      else go_on s

  unfoldable pub name_step : ℕ → ℕ → Scan → Turn
  name_step i c s =
      if c == 0
      then stop true s.disposition
      else if s.name_begin == 0 && isspace c
      then go_on s
      else (let begun = if s.name_begin == 0 then i else s.name_begin in
          if c == b'='
          then go_on
              (record s { phase = s_param_value_start; name_begin = begun; name_len = i - begun })
          else go_on (record s { name_begin = begun }))

  unfoldable pub value_step : Bytes → ℕ → ℕ → Scan → Turn
  value_step text i c s =
      let begun = if s.value_begin == 0 then i else s.value_begin in
      let table =
        NvHash.set_ex H s.disposition s.name_len (drop s.name_begin text) (i - begun)
          (drop begun text) true in
      if c == b'"' || c == b';' || c == 0
      then (if c == 0
          then stop true table
          else go_on (record s {
            phase = if c == b'"' then s_param_value_end else s_param_name;
            name_begin = 0;
            value_begin = 0;
            disposition = table;
          }))
      else go_on (record s { phase = s_param_value; value_begin = begun })

  unfoldable pub step : Bytes → ℕ → ℕ → Phase → Scan → Turn
  step text i c s_type s = type_step text i c s
  step text i c s_param_value_end s =
      if c == 0
      then stop true s.disposition
      else if c == b';'
      then go_on (record s { phase = s_param_name })
      else stop false s.disposition
  step text i c s_param_name s = name_step i c s
  step text i c s_param_value_start s =
      if c == b'"' then go_on (record s { phase = s_param_value }) else value_step text i c s
  step text i c s_param_value s = value_step text i c s

  -- The rest of the loop is a function of the variables.
  abbrev pub after : Turn → (Scan → H.Table × Bool) → H.Table × Bool
  after (go_on s) rest = rest s
  after (stop ok table) rest = (table, ok)

  -- The loop from the character at `i` on.
  unfoldable pub scan : Bytes → Bytes → ℕ → Scan → H.Table × Bool
  scan text [] i s = (s.disposition, true)
  scan text (c ∷ left) i s = after (step text i c s.phase s) (λ s'. scan text left (i + 1) s')

  unfoldable pub parse_disposition : H.Table → ℕ → Bytes → H.Table × Bool
  parse_disposition table length disposition =
      scan disposition (take length disposition) 0 (record {
        phase = s_type;
        name_begin = 0;
        value_begin = 0;
        name_len = 0;
        disposition = NvHash.clear H table;
      })
