-- ===== src/Tests/Fixtures.antt =====
-- A platform, requests and sessions to test with.
use bluewing_cpp_server.Prelude.{
  ℕ, arith, ◌+◌, Bool, true, false, Option, none, some, [], ◌∷◌, ◌==◌, if◌then◌else◌, Bytes, codes,
}
use bluewing_cpp_server.CLib.{within}
use bluewing_cpp_server.Request.{Cookie, Platform, ParsedUrl, Request}
use bluewing_cpp_server.Request.Lifecycle.{Client, Exchange}
use bluewing_cpp_server.Sessions.{Session, State}
use bluewing_cpp_server.UtHash.{item_list}
use bluewing_cpp_server.Util.Decode.{KeepsLiterals}

-- Letters are written as they are.
abbrev pub letters : ℕ → Bool
letters c = within b'a' b'z' c

pub letters-KeepsLiterals : KeepsLiterals letters
letters-KeepsLiterals c h = ground (arith, h)

-- The length of a path, up to the query.
unfoldable pub path_length : Bytes → ℕ
path_length [] = 0
path_length (c ∷ url) = let n = path_length url in if c == b'?' then 0 else n + 1

-- A URL that is a path.
abbrev pub demo_parse_url : Bytes → Option ParsedUrl
demo_parse_url url = some (record {
  path = some (record { off = 0; len = path_length url });
  host = none;
  port = none;
  query = none;
})

abbrev pub demo : Platform
demo = record {
  names = item_list Bytes;
  cookies = item_list Cookie;
  alloc = λ n. true;
  parse_url = demo_parse_url;
  version = codes "Lacewing";
}

abbrev pub fresh : Request demo
fresh = record {
  cookies = [];
  version_major = 1;
  version_minor = 1;
  method = codes "GET";
  url = [];
  hostname = [];
  headers_in = [];
  get_items = [];
  post_items = [];
  buffer = none;
  parsed_post_data = false;
  status = codes "200 OK";
  headers_out = [];
  responded = true;
  secure = false;
  timeout = 5;
  auto_finish = true;
}

abbrev pub idle : Exchange demo
idle = record { request = fresh; queued = []; sent = []; closing = false }

-- A client that keeps its connection, with nothing waiting on its stream.
abbrev pub still : Client demo
still = record { should_keep_alive = λ r. true; retry = some }

abbrev pub no_sessions : State demo (item_list (Session demo))
no_sessions = record { request = fresh; sessions = [] }
