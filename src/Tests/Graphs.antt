-- ===== src/Tests/Graphs.antt =====
-- streamgraph.c.
use bluewing_cpp_server.Prelude.{
  ℕ, true, false, some, none, [], ◌∷◌, ◌==◌, if◌then◌else◌, ◌≡◌, refl,
}
use bluewing_cpp_server.StreamGraph.{
  all_bytes, Link, Streams, take_direct, direct_links, find_next_direct, read_size, biggest,
}
use bluewing_cpp_server.StreamGraph.Direct.{Returns, IsSole, find_next_direct-IsSole}

abbrev link : ℕ → ℕ → Link
link to bytes = record { to = to; to_exp = to; bytes_left = bytes }

-- 1 leads to 2, which is transparent, and 2 to 3.
abbrev chain : Streams
chain = record {
  next = λ s. if s == 1 then link 2 5 ∷ [] else if s == 2 then link 3 all_bytes ∷ [] else [];
  next_expanded =
      λ s. if s == 1 then link 2 5 ∷ [] else if s == 2 then link 3 all_bytes ∷ [] else [];
  is_transparent = λ s. s == 2;
}

from_the_transparent : find_next_direct 2 chain 2 none all_bytes ≡ some (true, (some 3, all_bytes))
unfolding find_next_direct direct_links take_direct
from_the_transparent = refl

through_the_transparent : find_next_direct 3 chain 1 none all_bytes ≡ some (false, (some 3, 5))
unfolding find_next_direct direct_links take_direct
through_the_transparent = refl

five_left : read_size chain 1 all_bytes ≡ all_bytes
unfolding read_size biggest
five_left = refl

find_next_direct-IsSole_example :
    Returns (IsSole (chain.next_expanded 2)) (find_next_direct 2 chain 2 none all_bytes)
find_next_direct-IsSole_example = find_next_direct-IsSole 2 chain 2 all_bytes
