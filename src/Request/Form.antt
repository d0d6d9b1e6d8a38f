-- ===== src/Request/Form.antt =====
-- request.c: URL-encoded items, in the query of a URL (the loop of `lwp_ws_req_in_url`) and in the
-- body of a request (`parse_post_data`).
pub mod Text
pub mod RoundTrip
use bluewing_cpp_server.Prelude.{
  ℕ, zero, suc, ◌+◌, ◌-◌, Bool, true, false, not, Option, none, some, List, [], ◌∷◌, ◌++◌, ◌==◌,
  if◌then◌else◌, ◌>>=◌, Bytes, codes, length, take, drop,
}
use bluewing_cpp_server.CLib.{cstr}
use bluewing_cpp_server.Util.{Decoded, urldecode, begins_with, find_char}
use bluewing_cpp_server.HeapBuffer
use bluewing_cpp_server.NvHash
use bluewing_cpp_server.Request.{Platform, Request, header}

-- A name or a value, from the memory at its start; both loops decode '+' to a space. `slack` is what
-- the room is beyond its length.
abbrev pub decode_part : ℕ → Bytes → ℕ → Option Decoded
decode_part slack mem n = urldecode mem n (n + slack) true

-- `lwp_find_char` on the first `left` characters: whether it is there, and how far on it stopped.
unfoldable pub split_at : ℕ → Bytes → ℕ → Bool × ℕ
split_at c mem left = let (found, at) = find_char (take left mem) c in (found, left - length at)

module _ (P : Platform) where
  open P use {names}

  -- Both parts decoded, the second only if the first is well-formed.
  unfoldable pub add_item : names.Table → Option Decoded → Option Decoded → Option names.Table
  add_item items name value = do
    n ← name
    if not n.ok then some items else do
      v ← value
      some (if not v.ok then items else NvHash.set names items n.out v.out false)

  -- `mem` is the memory from the next item on, `left` the length of the text from there.
  unfoldable pub form_loop : ℕ → ℕ → names.Table → Bytes → ℕ → Option names.Table
  form_loop slack zero items mem left = some items
  form_loop slack (suc fuel) items mem left =
      let (named, name_length) = split_at b'=' mem left in
      let value_mem = drop (name_length + 1) mem in
      let value_left = left - name_length - 1 in
      let value_length = (split_at b'&' value_mem value_left).1 in
      if not named then some items else do
        items' ←
            add_item items (decode_part slack mem name_length)
              (decode_part slack value_mem value_length)
        form_loop slack fuel items' (drop (value_length + 1) value_mem)
            (value_left - value_length - 1)

  -- The body is a C string, so it ends at the first NUL; `none` is a fault. The byte at the end of
  -- the body is made a NUL for the loop and then restored.
  unfoldable pub parse_post_data : Request P → Option (Request P)
  parse_post_data ctx =
      if ctx.parsed_post_data
      then some ctx
      else (let ctx' = record ctx { parsed_post_data = true } in
          if not (
            begins_with (header P ctx (codes "content-type"))
              (codes "application/x-www-form-urlencoded"))
          then some ctx'
          else do
            mem ← HeapBuffer.buffer ctx.buffer
            let text = cstr (take (HeapBuffer.pending ctx.buffer) mem)
            items ← form_loop 0 (suc (length text)) ctx.post_items (text ++ 0 ∷ []) (length text)
            some (record ctx' { post_items = items }))

  -- lw_ws_req_GET, lw_ws_req_POST
  unfoldable pub get : Request P → Bytes → Bytes
  get ctx name = NvHash.get names ctx.get_items name []

  unfoldable pub post : Request P → Bytes → Option (Bytes × Request P)
  post ctx name = do
    ctx' ← parse_post_data ctx
    some (NvHash.get names ctx'.post_items name [], ctx')
