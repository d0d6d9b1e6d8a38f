-- ===== src/Tests/Pools.antt =====
-- IDPool.h.
use bluewing_cpp_server.Prelude.{◌≤◌, some, [], ◌∷◌, ◌≡◌, refl, arith}
use bluewing_cpp_server.IdPool.{Pool, new, emplace, take_id, borrow, return_id, limit}
use bluewing_cpp_server.IdPool.Laws.{count}
use bluewing_cpp_server.IdPool.Reach.{Reach, reach_new, reach_borrow, reach_return, Reach-distinct}

-- 0, 1 and 2 are borrowed, and 1 is returned.
abbrev three_taken : Pool
three_taken = record { released_ids = []; next_id = 3; borrowed_count = 3 }

three-Reach : Reach three_taken (2 ∷ 1 ∷ 0 ∷ [])
unfolding borrow new take_id
three-Reach = reach_borrow (reach_borrow (reach_borrow reach_new refl) refl) refl

Reach-distinct_example : (count 2 (2 ∷ 0 ∷ []) ≤ 1) × (2 ≤ limit)
unfolding return_id emplace
Reach-distinct_example = Reach-distinct (reach_return 1 three-Reach (omega arith)) 2

lowest_again : (borrow (return_id three_taken 1)).0 ≡ some 1
unfolding borrow return_id emplace take_id
lowest_again = refl
