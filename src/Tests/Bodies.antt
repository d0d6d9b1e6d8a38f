-- ===== src/Tests/Bodies.antt =====
-- request.c: the body of a request.
use bluewing_cpp_server.Prelude.{
  true, take, ◌≡◌, refl, arith, some, [], ◌∷◌, ◌++◌, Bytes, bytes_eq, codes,
}
use bluewing_cpp_server.CLib.{tolower, cstr, strcaseeq}
use bluewing_cpp_server.CLib.Hex.{hex_char}
use bluewing_cpp_server.HeapBuffer.{pending, buffer}
use bluewing_cpp_server.Request.{Request, find_header, header}
use bluewing_cpp_server.Request.Form.{parse_post_data}
use bluewing_cpp_server.Request.Form.Text.{KeepsItems, form_text}
use bluewing_cpp_server.Request.Form.RoundTrip.{set_items, parse_post_data-form_text}
use bluewing_cpp_server.Util.{begins_with}
use bluewing_cpp_server.Util.Decode.{percent_encode}
use bluewing_cpp_server.Tests.Fixtures.{letters, demo, fresh}

letters-KeepsItems : KeepsItems letters
letters-KeepsItems c h = ground (arith, h)

abbrev posted : Bytes
posted = codes "a=b%20c&d=e" ++ 0 ∷ []

abbrev post_request : Request demo
post_request = record fresh {
  method = codes "POST";
  headers_in =
      record { name = codes "content-type"; value = codes "application/x-www-form-urlencoded" }
      ∷ [];
  buffer = some (record { allocated = 36; length = 12; offset = 0; buffer = posted });
}

is_form :
    begins_with
      (header demo post_request (codes "content-type"))
      (codes "application/x-www-form-urlencoded")
    ≡ true
unfolding begins_with header find_header strcaseeq tolower bytes_eq cstr
is_form = refl

body_held : buffer post_request.buffer ≡ some posted
unfolding buffer
body_held = refl

body_text :
    take (pending post_request.buffer) posted
    ≡ form_text letters (codes "a") (codes "b c") ((codes "d", codes "e") ∷ []) ++ 0 ∷ []
unfolding pending form_text percent_encode hex_char
body_text = refl

parse_post_data-form_text_example :
    parse_post_data demo post_request
    ≡ some (record post_request {
      parsed_post_data = true;
      post_items = set_items demo 0 [] ((codes "a", codes "b c") ∷ (codes "d", codes "e") ∷ []);
    })
parse_post_data-form_text_example =
    parse_post_data-form_text demo post_request letters (codes "a") (codes "b c") [] posted
      ((codes "d", codes "e") ∷ []) letters-KeepsItems
      ((omega arith, tt), (omega arith, (omega arith, (omega arith, tt))))
      (((omega arith, tt), (omega arith, tt)), tt) refl is_form body_held body_text
