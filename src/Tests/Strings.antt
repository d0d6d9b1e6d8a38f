-- ===== src/Tests/Strings.antt =====
-- util.c, mimetypes.c, error.c and nvhash.c.
use bluewing_cpp_server.Prelude.{
  ℕ, zero, suc, ap, ◌≤◌, true, false, none, some, List, [], ◌∷◌, ◌++◌, ◌≡◌, ◌≢◌, refl, arith,
  bytes_eq, Bytes, codes, length,
}
use bluewing_cpp_server.CLib.{strcaseeq, tolower, strtol16_char}
use bluewing_cpp_server.CLib.Hex.{hex_char}
use bluewing_cpp_server.Error.{LwError, addv}
use bluewing_cpp_server.Error.Laws.{text-addv}
use bluewing_cpp_server.UtHash.{UtHash, item_list}
use bluewing_cpp_server.Util.{urldecode}
use bluewing_cpp_server.Util.Bounds.{urldecode_bounds, urldecode_total}
use bluewing_cpp_server.Util.Decode.{percent_encode, urldecode-percent_encode}
use bluewing_cpp_server.Tests.Fixtures.{letters, letters-KeepsLiterals}

percent_encode_run : percent_encode letters (codes "a b") ≡ codes "a%20b"
unfolding percent_encode hex_char
percent_encode_run = refl

urldecode_run :
    urldecode (codes "a+b%2fc") 7 100 true
    ≡ some (record { ok = true; out = codes "a b/c"; memory = codes "a b/c" ++ 0 ∷ [] })
unfolding urldecode strtol16_char
urldecode_run = refl

urldecode-percent_encode_example :
    urldecode
      (percent_encode letters (codes "a b") ++ codes "!")
      (length (percent_encode letters (codes "a b")))
      8
      true
    ≡ some (record { ok = true; out = codes "a b"; memory = codes "a b" ++ 0 ∷ [] })
urldecode-percent_encode_example =
    urldecode-percent_encode letters true (codes "a b") (codes "!") 8 letters-KeepsLiterals
      (omega arith, (omega arith, (omega arith, tt))) (omega arith)

full_output :
    urldecode (codes "abc") 3 2 true
    ≡ some (record { ok = false; out = codes "ab"; memory = codes "ab" })
unfolding urldecode
full_output = refl

just_fits :
    urldecode (codes "ab") 2 2 true
    ≡ some (record { ok = true; out = codes "ab"; memory = codes "ab" ++ 0 ∷ [] })
unfolding urldecode
just_fits = refl

-- Two places, and three bytes written.
urldecode_bounds_example : (2 ≤ 2) × (2 ≤ 2) × (codes "ab" ++ 0 ∷ [] ≡ codes "ab" ++ 0 ∷ [])
urldecode_bounds_example = urldecode_bounds (codes "ab") 2 2 true just_fits

urldecode_total_example : urldecode (codes "%2f%") 3 8 true ≢ none
urldecode_total_example = urldecode_total (codes "%2f%") 3 8 true (omega arith)

css_entry : strcaseeq (codes "css") (codes "CSS") ≡ true
unfolding strcaseeq tolower bytes_eq
css_entry = refl

abbrev failure : LwError
failure = record { text = codes "no route"; size = 1 }

text-addv_example : (addv failure (codes "connect")).text ≡ codes "connect - no route"
text-addv_example = text-addv failure (codes "connect") (omega arith)

-- A message of this length.
abbrev run_of : ℕ → Bytes
run_of zero = []
run_of (suc n) = b'x' ∷ run_of n

length-run_of : (n : ℕ) → length (run_of n) ≡ n
length-run_of zero = refl
length-run_of (suc n) = ap suc (length-run_of n)

abbrev tables : UtHash Bytes
tables = item_list Bytes

abbrev colours : List (Bytes × Bytes)
colours = (codes "sky", codes "blue") ∷ (codes "sun", codes "red") ∷ []
