-- ===== src/IdPool.antt =====
-- Lacewing/IDPool.h: the identifiers of the relay server's clients, peers and channels. The set of
-- released ones is the sorted list of its elements, and an int is kept modulo 2 ^ 32.
pub mod Laws
pub mod Reach
use bluewing_cpp_server.Prelude.{
  ℕ, ◌+◌, ◌-◌, ◌%◌, ◌^◌, Bool, true, false, ◌&&◌, Option, none, some, List, [], ◌∷◌, ltb, ◌==◌,
  if◌then◌else◌,
}

pub record Pool : Type 0 where
  pub released_ids : List ℕ
  pub next_id : ℕ
  pub borrowed_count : ℕ

-- IDPool::IDPool
unfoldable pub new : Pool
new = record { released_ids = []; next_id = 0; borrowed_count = 0 }

-- `emplace` of a std::set
unfoldable pub emplace : ℕ → List ℕ → List ℕ
emplace id [] = id ∷ []
emplace id (x ∷ xs) =
    let rest = emplace id xs in
    if ltb id x then id ∷ x ∷ xs else if id == x then x ∷ xs else x ∷ rest

abbrev pub limit : ℕ
limit = 65534

-- The first of the released ones, or the next one.
unfoldable pub take_id : List ℕ → Pool → ℕ × Pool
take_id [] p = (p.next_id, record p { next_id = (p.next_id + 1) % 2 ^ 16 })
take_id (x ∷ xs) p = (x, record p { released_ids = xs })

-- IDPool::borrow; `none` is the exception.
unfoldable pub borrow : Pool → Option ℕ × Pool
borrow old =
    let p = record old { borrowed_count = (old.borrowed_count + 1) % 2 ^ 32 } in
    let (id, q) = take_id p.released_ids p in
    if ltb limit p.borrowed_count && ltb p.borrowed_count (2 ^ 31) then (none, p) else (some id, q)

-- IDPool::returnID
unfoldable pub return_id : Pool → ℕ → Pool
unfolding emplace
return_id old id =
    let p = record old { borrowed_count = (old.borrowed_count + 2 ^ 32 - 1) % 2 ^ 32 } in
    if p.borrowed_count == 0
    then record p { released_ids = []; next_id = 0 }
    else if p.next_id == id + 1
    then record p { next_id = p.next_id - 1 }
    else record p { released_ids = emplace id p.released_ids }
