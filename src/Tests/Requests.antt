-- ===== src/Tests/Requests.antt =====
-- request.c: headers, cookies, URLs and responses; sessions.c.
use bluewing_cpp_server.Prelude.{
  suc, true, false, ◌≡◌, refl, inl, arith, Option, none, some, [], ◌∷◌, ◌++◌, if◌then◌else◌,
  bytes_eq, codes, length,
}
use bluewing_cpp_server.CLib.{cstr, strcaseeq}
use bluewing_cpp_server.CLib.Decimal.{dec}
use bluewing_cpp_server.CLib.Hex.{hex_char}
use bluewing_cpp_server.Request.{set_header, find_header, set_cookie, get_cookie}
use bluewing_cpp_server.Request.Headers.{value_of, find_header-set_header, get_cookie-set_cookie}
use bluewing_cpp_server.Request.Input.{parse_cookie_header, in_url, has_dot_dot}
use bluewing_cpp_server.Request.Input.CookieHeader.{
  cookie_text, set_pairs, parse_cookie_header-cookie_text,
}
use bluewing_cpp_server.Request.Input.Url.{in_url_path}
use bluewing_cpp_server.Request.Lifecycle.{Exchange, Hooks, call_hook, client_respond}
use bluewing_cpp_server.Request.Lifecycle.Answers.{Answered, IsWellBehaved, call_hook-Answered}
use bluewing_cpp_server.Request.Lifecycle.Head.{head_text, client_respond-sent}
use bluewing_cpp_server.Sessions.{Session, session_read, session_write}
use bluewing_cpp_server.Sessions.Laws.{session_read-session_write}
use bluewing_cpp_server.UtHash.{UtHash, item_list, lookup}
use bluewing_cpp_server.Util.Decode.{percent_encode}
use bluewing_cpp_server.Tests.Fixtures.{
  letters, letters-KeepsLiterals, path_length, demo, fresh, idle, no_sessions, still,
}

find_header-set_header_example :
    value_of
      (find_header (codes "ETag") (set_header demo fresh (codes "etag") (codes "x1")).headers_out)
    ≡ (if strcaseeq (codes "etag") (codes "ETag")
        then cstr (codes "x1")
        else value_of (find_header (codes "ETag") fresh.headers_out))
find_header-set_header_example =
    find_header-set_header demo fresh (codes "etag") (codes "x1") (codes "ETag")
      (omega arith, (omega arith, (omega arith, (omega arith, tt))))

get_cookie-set_cookie_example :
    get_cookie demo (set_cookie demo fresh (codes "id") (codes "7")) (codes "id") ≡ (
      if bytes_eq (codes "id") (codes "id")
      then cstr (codes "7")
      else get_cookie demo fresh (codes "id"))
get_cookie-set_cookie_example =
    get_cookie-set_cookie demo fresh (codes "id") (codes "7") (codes "id")

parse_cookie_header-cookie_text_example :
    parse_cookie_header demo fresh
      (cookie_text (codes "a") (codes "1") ((codes "b", codes "2") ∷ []))
    ≡ (set_pairs demo fresh ((codes "a", codes "1") ∷ (codes "b", codes "2") ∷ []), true)
parse_cookie_header-cookie_text_example =
    parse_cookie_header-cookie_text demo fresh (codes "a") (codes "1") ((codes "b", codes "2") ∷ [])
      ((λ h. omega arith, λ h. omega arith, tt), (omega arith, tt))
      (((λ h. omega arith, λ h. omega arith, tt), (omega arith, tt)), tt)

pub no_dots : has_dot_dot (b'/' ∷ percent_encode letters (codes "..")) ≡ some false
unfolding has_dot_dot percent_encode hex_char
no_dots = refl

pub path_found :
    demo.parse_url (b'/' ∷ percent_encode letters (codes ".."))
    ≡ some (record {
      path = some (record { off = 0; len = suc (length (percent_encode letters (codes ".."))) });
      host = none;
      port = none;
      query = none;
    })
unfolding percent_encode hex_char path_length
path_found = refl

-- "%2E%2E" is stored as "..".
in_url_path_example :
    in_url demo fresh
      (suc (length (percent_encode letters (codes ".."))))
      (b'/' ∷ (percent_encode letters (codes "..") ++ codes " HTTP"))
    ≡ some (record fresh { url = codes ".." }, true)
in_url_path_example =
    in_url_path demo fresh letters (codes "..") (codes " HTTP") letters-KeepsLiterals
      (omega arith, (omega arith, tt)) (omega arith) no_dots path_found

-- A handler that writes "hi" and leaves the rest to the server.
abbrev greet : Exchange demo → Option (Exchange demo)
greet x = some (record x { queued = x.queued ++ codes "hi" })

greet-IsWellBehaved : IsWellBehaved demo greet
greet-IsWellBehaved x open_ = (
  record x { queued = x.queued ++ codes "hi" },
  refl,
  inl (record { responses = omega arith; finished = open_; auto = refl }),
)

abbrev greeter : Hooks demo
greeter = record { client = still; on_get = some greet; on_post = none; on_head = none }

call_hook-Answered_example :
    (y : Exchange demo) × (call_hook demo greeter idle ≡ some y) × Answered demo idle 1 true y
call_hook-Answered_example =
    call_hook-Answered demo greeter idle (λ x. refl) greet-IsWellBehaved tt tt refl refl

abbrev greeted : Exchange demo
greeted = record idle { queued = codes "hi" }

client_respond-sent_example :
    (y : Exchange demo) × (client_respond demo still greeted ≡ some y)
    × (y.sent ≡ (head_text demo fresh 2 ++ codes "hi") ∷ [])
    × (y.queued ≡ [])
    × (y.request.responded ≡ true)
    × (y.closing ≡ false)
unfolding dec cstr
client_respond-sent_example = client_respond-sent demo still greeted (λ n. refl) tt (omega arith)

abbrev session_table : UtHash (Session demo)
session_table = item_list (Session demo)

session_read-session_write_example :
    session_read demo session_table
      (session_write demo session_table no_sessions (1 ∷ 255 ∷ []) (codes "user") (codes "ann"))
      (codes "user")
    ≡ (if bytes_eq (cstr (codes "user")) (cstr (codes "user"))
        then cstr (codes "ann")
        else session_read demo session_table no_sessions (codes "user"))
unfolding lookup
session_read-session_write_example =
    session_read-session_write demo session_table no_sessions (1 ∷ 255 ∷ []) (codes "user")
      (codes "ann") (codes "user") (omega arith) refl
