-- ===== src/Request/Input.antt =====
-- request.c: what the protocol code hands over, `lwp_ws_req_in_version`, `lwp_ws_req_in_method`,
-- `lwp_ws_req_in_header` and `lwp_ws_req_in_url`.
pub mod CookieHeader
pub mod Url
use bluewing_cpp_server.Prelude.{
  ℕ, zero, suc, ◌+◌, ◌-◌, ◌%◌, Bool, true, false, not, ◌&&◌, ◌||◌, Option, none, some, List, [],
  ◌∷◌, ◌++◌, map, ltb, leb, ◌==◌, if◌then◌else◌, ◌>>=◌, Bytes, bytes_eq, codes, length, take, drop,
  get_or,
}
use bluewing_cpp_server.CLib.{tolower, cstr}
use bluewing_cpp_server.Util.{Decoded, urldecode}
use bluewing_cpp_server.Request.{Platform, Request, Header, UrlField, ParsedUrl, set_cookie_ex}
use bluewing_cpp_server.Request.Form.{form_loop}

-- `parse_cookie_header` between two characters, with the name and the value read so far.
pub data CookieState : Type 0 where
  seek_name : CookieState
  seek_separator : Bytes → CookieState
  seek_end : Bytes → Bytes → CookieState

-- A `char`: the difference wraps to a byte.
abbrev pub digit_value : ℕ → ℕ
digit_value c = (c + 256 - b'0') % 256

-- sizeof (ctx->method)
abbrev pub method_size : ℕ
method_size = 16

-- sizeof (ctx->hostname)
abbrev pub hostname_size : ℕ
hostname_size = 128

-- The host up to the first ':' that is not its first character.
up_to_colon : Bytes → Bytes
up_to_colon [] = []
up_to_colon (c ∷ value) = if c == b':' then [] else c ∷ up_to_colon value

unfoldable pub host_part : Bytes → Bytes
unfolding up_to_colon
host_part [] = []
host_part (c ∷ value) = c ∷ up_to_colon value

-- The loop over the URL's first `length - 1` characters and their neighbours. At length 0 that
-- bound wraps, and the loop runs off the URL: no result.
unfoldable pub has_dot_dot : Bytes → Option Bool
has_dot_dot [] = none
has_dot_dot (c ∷ []) = some false
has_dot_dot (c ∷ d ∷ url) = if c == b'.' && d == b'.' then some true else has_dot_dot (d ∷ url)

-- sizeof (ctx->url)
abbrev pub url_size : ℕ
url_size = 4096

-- `get_field`, and the memory at the field.
abbrev pub field_memory : Bytes → UrlField → Bytes
field_memory url f = drop f.off url

module _ (P : Platform) where
  unfoldable pub in_version : Request P → Bytes → Request P × Bool
  in_version ctx version =
      if not (length version == 8)
      then (ctx, false)
      else if not (bytes_eq (take 5 version) (codes "HTTP/")) || not (get_or version 6 0 == b'.')
      then (ctx, false)
      else (let set = record ctx {
        version_major = digit_value (get_or version 5 0);
        version_minor = digit_value (get_or version 7 0);
      } in
          if not (set.version_major == 1)
          then (set, false)
          else if not (set.version_minor == 0) && not (set.version_minor == 1)
          then (set, false)
          else (set, true))

  unfoldable pub in_method : Request P → Bytes → Request P × Bool
  in_method ctx method =
      if ltb (method_size - 1) (length method)
      then (ctx, false)
      else (record ctx { method = method }, true)

  -- One character of a cookie header, which is none of the end.
  unfoldable pub cookie_step : Request P → CookieState → ℕ → Request P × CookieState
  cookie_step ctx seek_name c =
      if c == b' ' || c == b'\t' then (ctx, seek_name) else (ctx, seek_separator (c ∷ []))
  cookie_step ctx (seek_separator name) c =
      if c == b'=' then (ctx, seek_end name []) else (ctx, seek_separator (name ++ c ∷ []))
  cookie_step ctx (seek_end name value) c =
      if c == b';'
      then (set_cookie_ex P ctx name value [] false, seek_name)
      else (ctx, seek_end name (value ++ c ∷ []))

  -- The end of the header.
  unfoldable pub cookie_finish : Request P → CookieState → Request P × Bool
  cookie_finish ctx seek_name = (ctx, true)
  cookie_finish ctx (seek_separator name) = (ctx, false)
  cookie_finish ctx (seek_end name value) = (set_cookie_ex P ctx name value [] false, true)

  unfoldable pub cookie_loop : Request P → CookieState → Bytes → Request P × Bool
  cookie_loop ctx state [] = cookie_finish ctx state
  cookie_loop ctx state (c ∷ header) =
      let (ctx', state') = cookie_step ctx state c in cookie_loop ctx' state' header

  unfoldable pub parse_cookie_header : Request P → Bytes → Request P × Bool
  parse_cookie_header ctx header = cookie_loop ctx seek_name header

  -- The header is kept also where its value is refused.
  unfoldable pub in_header : Request P → Bytes → Bytes → Request P × Bool
  in_header ctx name value =
      if not (P.alloc (length name + 1)) || not (P.alloc (length value + 1))
      then (ctx, false)
      else (let lower = map tolower name in
          let kept = record ctx {
            headers_in = ctx.headers_in ++ record { name = lower; value = value } ∷ [];
          } in
          if bytes_eq (cstr lower) (codes "cookie")
          then parse_cookie_header kept value
          else if bytes_eq (cstr lower) (codes "host")
          then (if ltb (hostname_size - 1) (length value)
              then (kept, false)
              else (record kept { hostname = host_part value }, true))
          else (kept, true))

  -- The path, without its leading '/'; `url` is the memory from the URL on. Behind a path that fills
  -- `ctx->url` the terminator goes to the beginning of `ctx->hostname`.
  unfoldable pub in_path : Request P → Bytes → Option UrlField → Option (Request P × Bool)
  in_path ctx url none = some (record ctx { url = [] }, true)
  in_path ctx url (some f) =
      let slash = get_or (field_memory url f) 0 0 == b'/' in
      let skip = if slash then 1 else 0 in
      do
        d ← urldecode (drop skip (field_memory url f)) (f.len - skip) url_size false
        some (
          record ctx {
            url = d.out;
            hostname = if ltb url_size (length d.memory) then [] else ctx.hostname;
          },
          d.ok,
        )

  -- With a port, the host gets the port's offset too many characters; `none` is a read past the
  -- memory that there is.
  unfoldable pub in_host :
      Request P → Bytes → Option UrlField → Option UrlField → Option (Request P)
  in_host ctx url none port = some ctx
  in_host ctx url (some f) port =
      let host_length : ℕ = elim port [ none ↦ f.len | some p ↦ f.len + (1 + p.off) ] in
      if ltb (length (field_memory url f)) host_length
      then none
      else some (in_header ctx (codes "host") (take host_length (field_memory url f))).0

  unfoldable pub in_query : Request P → Bytes → Option UrlField → Option (Request P)
  in_query ctx url none = some ctx
  in_query ctx url (some f) = do
    items ← form_loop P 1 (suc f.len) ctx.get_items (field_memory url f) f.len
    some (record ctx { get_items = items })

  -- `url` is the memory from the URL on, `n` its length.
  unfoldable pub in_url : Request P → ℕ → Bytes → Option (Request P × Bool)
  in_url ctx n url = do
    traversal ← has_dot_dot (take n url)
    if traversal then some (ctx, false) else elim (P.parse_url (take n url)) [
      | none ↦ some (ctx, false)
      | some parsed ↦ do
        r ← in_path ctx url parsed.path
        if not r.1 then some r else do
          hosted ← in_host r.0 url parsed.host parsed.port
          queried ← in_query hosted url parsed.query
          some (queried, true)
    ]
