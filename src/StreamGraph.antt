-- ===== src/StreamGraph.antt =====
-- Lacewing/src/streamgraph.c: how much is read from a stream of the expanded graph, and whether it may be
-- written to the next one without reading it.
pub mod Direct
use bluewing_cpp_server.Prelude.{
  ℕ, zero, suc, ◌-◌, ◌^◌, Bool, true, false, not, ◌&&◌, Option, none, some, List, [], ◌∷◌, ltb,
  ◌==◌, if◌then◌else◌, ◌>>=◌,
}

-- `(size_t) -1`
abbrev pub all_bytes : ℕ
all_bytes = 2 ^ 64 - 1

-- `struct _lwp_streamgraph_link`
pub record Link : Type 0 where
  pub to : ℕ
  pub to_exp : ℕ
  pub bytes_left : ℕ

-- The streams, by their addresses: their links, and what lwp_stream_is_transparent says of them.
pub record Streams : Type 0 where
  pub next : ℕ → List Link
  pub next_expanded : ℕ → List Link
  pub is_transparent : ℕ → Bool

-- What `*next_direct` and `*bytes` are behind a call, and what it returns; `none` is a call without end.
abbrev pub Found : Type 0
Found = Option (Bool × (Option ℕ × ℕ))

-- The end of a round of the loop, for a link to `next`.
unfoldable pub take_direct : ℕ → Option ℕ → ℕ → (Option ℕ → ℕ → Found) → Found
take_direct next (some direct) bytes go_on = some (false, (some direct, bytes))
take_direct next none bytes go_on = go_on (some next) bytes

-- The loop of find_next_direct, with its recursive call.
unfoldable pub direct_links :
    (ℕ → Bool) → (ℕ → Option ℕ → ℕ → Found) → List Link → Option ℕ → ℕ → Found
unfolding take_direct
direct_links transparent find [] direct bytes = some (true, (direct, bytes))
direct_links transparent find (link ∷ links) direct bytes =
    let limited =
      if not (link.bytes_left == all_bytes) && ltb link.bytes_left bytes
      then link.bytes_left
      else bytes in
    let next = link.to_exp in
    let found = find next direct limited in
    let plain = take_direct next direct limited (direct_links transparent find links) in
    let behind = found >>= (λ (ok, (d, b)).
      let went_on = take_direct next d b (direct_links transparent find links) in
      if ok then went_on else some (false, (d, b))) in
    if transparent next then behind else plain

-- find_next_direct, by fuel
unfoldable pub find_next_direct : ℕ → Streams → ℕ → Option ℕ → ℕ → Found
unfolding direct_links
find_next_direct zero s stream direct bytes = none
find_next_direct (suc fuel) s stream direct bytes =
    direct_links s.is_transparent (find_next_direct fuel s) (s.next_expanded stream) direct bytes

-- The first loop of graph_read
unfoldable pub biggest : List Link → ℕ → ℕ
biggest [] bytes = bytes
biggest (link ∷ links) bytes =
    let rest = biggest links (if ltb bytes link.bytes_left then link.bytes_left else bytes) in
    if link.bytes_left == all_bytes then all_bytes else rest

-- How much graph_read asks for.
unfoldable pub read_size : Streams → ℕ → ℕ → ℕ
unfolding biggest
read_size s stream bytes =
    let most = biggest (s.next stream) bytes in if bytes == all_bytes then most else bytes
