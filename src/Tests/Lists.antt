-- ===== src/Tests/Lists.antt =====
-- list.c and multipart.c.
use bluewing_cpp_server.Prelude.{
  ℕ, true, ◌≡◌, refl, arith, none, some, [], ◌∷◌, ◌++◌, All, Bytes, codes, length,
}
use bluewing_cpp_server.CLib.{isspace}
use bluewing_cpp_server.LinkedList.{
  Linked, push, push_front, remove, clear, each_r, front, back, list_length, put, write_next,
  write_prev,
}
use bluewing_cpp_server.LinkedList.Segment.{Run}
use bluewing_cpp_server.LinkedList.Refine.{Represents, push-Represents, push_front-Represents}
use bluewing_cpp_server.LinkedList.Remove.{remove-Represents}
use bluewing_cpp_server.LinkedList.Loops.{clear-Represents}
use bluewing_cpp_server.Multipart.{parse_disposition}
use bluewing_cpp_server.Multipart.Steps.{IsParamName, params_text, put_params}
use bluewing_cpp_server.Multipart.Disposition.{parse_disposition-params_text}
use bluewing_cpp_server.NvHash
use bluewing_cpp_server.UtHash.{UtHash, item_list}

abbrev nothing : Linked ℕ
nothing = record { head = none; memory = λ a. none; fresh = 100 }

nothing-Represents : Represents nothing []
unfolding front back list_length
nothing-Represents = record {
  first = refl;
  last = refl;
  counted = refl;
  linked = tt;
  distinct = tt;
  allocated = tt;
}

one-Represents : Represents (push nothing 7) ((100, 7) ∷ [])
one-Represents = push-Represents nothing [] 7 nothing-Represents

-- 6, 7, 8
abbrev three : Linked ℕ
three = push (push_front (push nothing 7) 6) 8

abbrev three_run : Run ℕ
three_run = (101, 6) ∷ (100, 7) ∷ (102, 8) ∷ []

two-Represents : Represents (push_front (push nothing 7) 6) ((101, 6) ∷ (100, 7) ∷ [])
unfolding push
two-Represents = push_front-Represents (push nothing 7) ((100, 7) ∷ []) 6 one-Represents

three-Represents : Represents three three_run
unfolding push push_front
three-Represents =
    push-Represents (push_front (push nothing 7) 6) ((101, 6) ∷ (100, 7) ∷ []) 8 two-Represents

three_run_back : each_r 5 three (back three) ≡ 8 ∷ 7 ∷ 6 ∷ []
unfolding each_r back push push_front put write_next write_prev
three_run_back = refl

remove-Represents_example : Represents (remove three (some 100)) ((101, 6) ∷ (102, 8) ∷ [])
remove-Represents_example =
    remove-Represents three ((101, 6) ∷ []) ((102, 8) ∷ []) 100 7 three-Represents

clear-Represents_example :
    All (λ x. (clear three).memory x.0 ≡ none) three_run × Represents (clear three) []
clear-Represents_example = clear-Represents three three_run three-Represents

abbrev table : UtHash Bytes
table = item_list Bytes

name_ok : IsParamName (codes "n")
unfolding isspace
name_ok = (refl, ((λ h. omega arith, λ h. omega arith), tt))

parse_disposition-params_text_example :
    parse_disposition table []
      (length (codes "f" ++ b';' ∷ params_text (codes "n") (codes "x") []))
      (codes "f" ++ b';' ∷ params_text (codes "n") (codes "x") [])
    ≡ (
      put_params table
          (NvHash.set_ex table (NvHash.clear table []) 4 (codes "type") 1 (codes "f") true)
          ((codes "n", codes "x") ∷ []),
      true,
    )
parse_disposition-params_text_example =
    parse_disposition-params_text table [] (codes "f") (codes "n") (codes "x") []
      ((λ h. omega arith, λ h. omega arith), tt)
      (name_ok, ((λ h. omega arith, λ h. omega arith, λ h. omega arith), tt)) tt
