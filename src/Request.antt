-- ===== src/Request.antt =====
-- Lacewing/src/webserver/request.c: an HTTP request as the protocol code fills it and as a handler
-- sees it. This file has the state, and the headers and cookies; the children have the rest.
pub mod Headers
pub mod Input
pub mod Form
pub mod Lifecycle
pub mod Output
use bluewing_cpp_server.Prelude.{
  ℕ, zero, suc, ◌+◌, ◌-◌, Bool, true, false, Option, none, some, List, [], ◌∷◌, ◌++◌, map, ltb,
  ◌==◌, if◌then◌else◌, Bytes, bytes_eq, codes, length, take,
}
use bluewing_cpp_server.CLib.{tolower, cstr, strcaseeq}
use bluewing_cpp_server.HeapBuffer.{HeapBuffer}
use bluewing_cpp_server.UtHash.{UtHash, assign}

-- `struct _lw_ws_req_hdr`; the memory of a value is read as a C string.
pub record Header : Type 0 where
  pub name : Bytes
  pub value : Bytes

-- `struct _lw_ws_req_cookie`
pub record Cookie : Type 0 where
  pub name : Bytes
  pub value : Bytes
  pub attr : Bytes
  pub changed : Bool

-- One field of `struct http_parser_url`.
pub record UrlField : Type 0 where
  pub off : ℕ
  pub len : ℕ

-- `struct http_parser_url`, with the fields that the program asks for; `none` is a clear bit of
-- `field_set`.
pub record ParsedUrl : Type 0 where
  pub path : Option UrlField
  pub host : Option UrlField
  pub port : Option UrlField
  pub query : Option UrlField

-- What the request code uses of other projects' code and of the machine: the uthash tables, the
-- allocator, and `http_parser_parse_url` of deps/http-parser (`none` is its error).
pub record Platform : Type 1 where
  pub names : UtHash Bytes
  pub cookies : UtHash Cookie
  pub alloc : ℕ → Bool
  pub parse_url : Bytes → Option ParsedUrl
  pub version : Bytes

-- `struct _lw_ws_req`, and what the code reads of its `ws` and `client`.
pub record Request (P : Platform) : Type 0 where
  pub cookies : P.cookies.Table
  pub version_major : ℕ
  pub version_minor : ℕ
  pub method : Bytes
  pub url : Bytes
  pub hostname : Bytes
  pub headers_in : List Header
  pub get_items : P.names.Table
  pub post_items : P.names.Table
  pub buffer : Option HeapBuffer
  pub parsed_post_data : Bool
  pub status : Bytes
  pub headers_out : List Header
  pub responded : Bool
  pub secure : Bool
  pub timeout : ℕ
  pub auto_finish : Bool

-- The first header of a name, as `lw_ws_req_header` and `lw_ws_req_set_header` look for it.
unfoldable pub find_header : Bytes → List Header → Option Header
find_header name [] = none
find_header name (h ∷ rest) = if strcaseeq (cstr h.name) name then some h else find_header name rest

unfoldable pub replace_header : Bytes → Bytes → List Header → List Header
replace_header name value [] = []
replace_header name value (h ∷ rest) =
    if strcaseeq (cstr h.name) name
    then record h { value = value } ∷ rest
    else h ∷ replace_header name value rest

-- lwp_ws_req_set_cookie; the name of an item that is there stays.
unfoldable pub updated : Option Cookie → Bytes → Bytes → Bytes → Bool → Cookie
updated none name value attr changed = record {
  name = name;
  value = value;
  attr = attr;
  changed = changed;
}
updated (some cookie) name value attr changed = record cookie {
  value = value;
  attr = attr;
  changed = changed;
}

abbrev pub cookie_value : Option Cookie → Bytes
cookie_value none = []
cookie_value (some cookie) = cstr cookie.value

module _ (P : Platform) where
  -- lw_ws_req_header
  unfoldable pub header : Request P → Bytes → Bytes
  header ctx name = elim (find_header name ctx.headers_in) [ some h ↦ cstr h.value | none ↦ [] ]

  -- lw_ws_req_add_header
  unfoldable pub add_header : Request P → Bytes → Bytes → Request P
  add_header ctx name value = record ctx {
    headers_out = ctx.headers_out ++ record { name = map tolower name; value = value } ∷ [];
  }

  -- lw_ws_req_set_header
  unfoldable pub set_header : Request P → Bytes → Bytes → Request P
  set_header ctx name value = elim (find_header name ctx.headers_out) [
    | some h ↦ record ctx { headers_out = replace_header name value ctx.headers_out }
    | none ↦ add_header ctx name value
  ]

  -- lwp_ws_req_set_cookie
  unfoldable pub set_cookie_ex : Request P → Bytes → Bytes → Bytes → Bool → Request P
  set_cookie_ex ctx name value attr changed =
      let found = P.cookies.find ctx.cookies name in
      record ctx {
        cookies = assign P.cookies ctx.cookies name (updated found name value attr changed) found;
      }

  -- lw_ws_req_set_cookie_attr
  unfoldable pub set_cookie_attr : Request P → Bytes → Bytes → Bytes → Request P
  set_cookie_attr ctx name value attr = set_cookie_ex ctx name value attr true

  -- lw_ws_req_set_cookie
  unfoldable pub set_cookie : Request P → Bytes → Bytes → Request P
  set_cookie ctx name value =
      set_cookie_attr ctx name value
        (if ctx.secure then codes "Secure; HttpOnly" else codes "HttpOnly")

  -- lw_ws_req_get_cookie
  unfoldable pub get_cookie : Request P → Bytes → Bytes
  get_cookie ctx name = cookie_value (P.cookies.find ctx.cookies name)
