-- ===== src/IdPool/Laws.antt =====
-- Which identifiers a pool hands out.
use bluewing_cpp_server.Prelude.{
  ℕ, suc, ◌+◌, ◌-◌, ◌%◌, ◌^◌, ◌<◌, ◌≤◌, Bool, true, false, none, some, List, [], ◌∷◌, ltb, ◌==◌,
  if◌then◌else◌, ◌≡◌, refl, sym, arith, inl, inr, All, length, ap, Bool-cases, subst,
}
use bluewing_cpp_server.IdPool.{Pool, new, emplace, limit, take_id, borrow, return_id}

-- How often a number is in a list.
abbrev pub count : ℕ → List ℕ → ℕ
count k [] = 0
count k (x ∷ xs) = let rest = count k xs in if x == k then suc rest else rest

abbrev pub one_if : Bool → ℕ
one_if true = 1
one_if false = 0

-- The first one taken out.
abbrev pub without : ℕ → List ℕ → List ℕ
without id [] = []
without id (x ∷ xs) = let rest = without id xs in if x == id then xs else x ∷ rest

abbrev pub IsAscending : List ℕ → Type 0
IsAscending [] = Unit
IsAscending (x ∷ xs) = All (λ y. x < y) xs × IsAscending xs

-- The numbers below the next one are each either in use or released, once.
pub record Valid (p : Pool) (in_use : List ℕ) : Type 0 where
  pub counted : p.borrowed_count ≡ length in_use
  pub limited : length in_use ≤ limit
  pub ascending : IsAscending p.released_ids
  pub total : length in_use + length p.released_ids ≡ p.next_id
  pub split : (k : ℕ) → count k in_use + count k p.released_ids ≡ one_if (ltb k p.next_id)

pub new-Valid : Valid new []
unfolding new
new-Valid = record {
  counted = refl;
  limited = omega arith;
  ascending = tt;
  total = omega arith;
  split = λ k. ground arith;
}

count-emplace :
    (id k : ℕ) (xs : List ℕ)
    → count id xs ≡ 0
    → count k (emplace id xs) ≡ count k xs + one_if (id == k)
unfolding emplace
count-emplace id k [] h = ground arith
count-emplace id k (x ∷ xs) h = ground (arith, count-emplace id k xs)

length-emplace : (id : ℕ) (xs : List ℕ) → count id xs ≡ 0 → length (emplace id xs) ≡ length xs + 1
unfolding emplace
length-emplace id [] h = omega arith
length-emplace id (x ∷ xs) h = ground (arith, length-emplace id xs)

All_less-emplace :
    (y id : ℕ) (xs : List ℕ) → y < id → All (λ x. y < x) xs → All (λ x. y < x) (emplace id xs)
unfolding emplace
All_less-emplace y id [] h a = (h, tt)
All_less-emplace y id (x ∷ xs) h a = ground (arith, All_less-emplace y id xs)

All_less_trans : (x y : ℕ) (xs : List ℕ) → x < y → All (λ z. y < z) xs → All (λ z. x < z) xs
All_less_trans x y [] h a = tt
All_less_trans x y (z ∷ xs) h a = (omega arith, All_less_trans x y xs h a.1)

emplace-IsAscending : (id : ℕ) (xs : List ℕ) → IsAscending xs → IsAscending (emplace id xs)
unfolding emplace
emplace-IsAscending id [] h = (tt, tt)
emplace-IsAscending id (x ∷ xs) h =
    ground (arith, emplace-IsAscending id xs, All_less-emplace x id xs, All_less_trans id x xs)

count-without :
    (id k : ℕ) (xs : List ℕ)
    → 0 < count id xs
    → count k (without id xs) + one_if (id == k) ≡ count k xs
count-without id k [] h = absurd (omega arith)
count-without id k (x ∷ xs) h = ground (arith, count-without id k xs)

length-without : (id : ℕ) (xs : List ℕ) → 0 < count id xs → length (without id xs) + 1 ≡ length xs
length-without id [] h = absurd (omega arith)
length-without id (x ∷ xs) h = ground (arith, length-without id xs)

-- Nothing below the first of an ascending list is in it.
count_below : (k x : ℕ) (xs : List ℕ) → k ≤ x → All (λ y. x < y) xs → count k xs ≡ 0
count_below k x [] h a = refl
count_below k x (y ∷ xs) h a = ground (arith, count_below k x xs h)

count_nil_length : (xs : List ℕ) → length xs ≡ 0 → (k : ℕ) → count k xs ≡ 0
count_nil_length [] h k = refl
count_nil_length (x ∷ xs) h k = absurd (omega arith)

-- Every smaller number is in use.
abbrev pub IsLowest : ℕ → List ℕ → Type 0
IsLowest id in_use = (k : ℕ) → one_if (ltb k id) ≤ count k in_use

borrowed : Pool → List ℕ → Pool
borrowed p in_use = record p { borrowed_count = length in_use + 1 }

-- What is taken from a valid pool.
abbrev pub Taken : ℕ × Pool → List ℕ → Type 0
Taken (id, q) in_use = Valid q (id ∷ in_use) × (count id in_use ≡ 0) × IsLowest id in_use

take_id-Taken :
    (p : Pool) (in_use ids : List ℕ)
    → Valid p in_use
    → ids ≡ p.released_ids
    → length in_use < limit
    → Taken (take_id ids (borrowed p in_use)) in_use
unfolding take_id borrowed
take_id-Taken p in_use [] v e l =
    let n : length p.released_ids ≡ 0 = ap length (sym e) in
    let t : length in_use ≡ p.next_id = omega (arith, v.total) in
    let none_free = count_nil_length p.released_ids n in
    (
      record {
        counted = omega arith;
        limited = omega arith;
        ascending = v.ascending;
        total = omega (arith, v.total);
        split = λ k. ground (arith, v.split k, none_free k, t);
      },
      ground (arith, v.split p.next_id, none_free p.next_id),
      λ k. ground (arith, v.split k, none_free k),
    )
take_id-Taken p in_use (x ∷ xs) v e l =
    let asc : IsAscending (x ∷ xs) = subst (λ ids. IsAscending ids) (sym e) v.ascending in
    let n : length (x ∷ xs) ≡ length p.released_ids = ap length e in
    let s : (k : ℕ) → count k in_use + count k (x ∷ xs) ≡ one_if (ltb k p.next_id) = λ k.
      subst (λ ids. count k in_use + count k ids ≡ one_if (ltb k p.next_id)) (sym e) (v.split k) in
    let below : (k : ℕ) → k ≤ x → count k xs ≡ 0 = λ k h. count_below k x xs h asc.0 in
    (
      record {
        counted = omega arith;
        limited = omega arith;
        ascending = asc.1;
        total = omega (arith, v.total);
        split = λ k. ground (arith, s k);
      },
      ground (arith, s x),
      λ k. ground (arith, s k, s x, below k),
    )

-- A borrowed identifier is not in use, every smaller one is, and the pool stays valid with it in use.
pub borrow-Valid :
    (p : Pool) (in_use : List ℕ)
    → Valid p in_use
    → length in_use < limit
    → (id : ℕ) × (q : Pool) × (borrow p ≡ (some id, q))
      × Valid q (id ∷ in_use)
      × (count id in_use ≡ 0)
      × IsLowest id in_use
unfolding borrow borrowed
borrow-Valid p in_use v l =
    let (id, q) = take_id p.released_ids (borrowed p in_use) in
    let (w, z, m) = take_id-Taken p in_use p.released_ids v refl l in
    let e : (p.borrowed_count + 1) % 2 ^ 32 ≡ length in_use + 1 = omega (arith, v.counted) in
    (id, q, rw e (ground (arith, l)), w, z, m)

-- With all identifiers in use, borrowing fails, and the count is one too high from then on.
pub borrow-full :
    (p : Pool) (in_use : List ℕ)
    → Valid p in_use
    → length in_use ≡ limit
    → borrow p ≡ (none, record p { borrowed_count = length in_use + 1 })
unfolding borrow
borrow-full p in_use v l =
    let e : (p.borrowed_count + 1) % 2 ^ 32 ≡ length in_use + 1 = omega (arith, v.counted) in
    rw e (ground (arith, l))

cleared-Valid :
    (left : List ℕ)
    → length left ≡ 0
    → Valid (record { released_ids = []; next_id = 0; borrowed_count = length left }) left
cleared-Valid left e = record {
  counted = refl;
  limited = omega arith;
  ascending = tt;
  total = omega arith;
  split = λ k. ground (arith, count_nil_length left e k);
}

rolled_back-Valid :
    (p : Pool) (in_use : List ℕ) (id : ℕ)
    → Valid p in_use
    → 0 < count id in_use
    → p.next_id ≡ id + 1
    → Valid
        (record p { next_id = p.next_id - 1; borrowed_count = length (without id in_use) })
        (without id in_use)
rolled_back-Valid p in_use id v h e = record {
  counted = refl;
  limited = omega (arith, length-without id in_use h, v.limited);
  ascending = v.ascending;
  total = omega (arith, length-without id in_use h, v.total);
  split = λ k. ground (arith, v.split k, count-without id k in_use h);
}

released-Valid :
    (p : Pool) (in_use : List ℕ) (id : ℕ)
    → Valid p in_use
    → 0 < count id in_use
    → Valid
        (record p {
          released_ids = emplace id p.released_ids;
          borrowed_count = length (without id in_use);
        })
        (without id in_use)
released-Valid p in_use id v h =
    let free : count id p.released_ids ≡ 0 = ground (arith, v.split id) in
    record {
      counted = refl;
      limited = omega (arith, length-without id in_use h, v.limited);
      ascending = emplace-IsAscending id p.released_ids v.ascending;
      total =
          omega (arith, length-without id in_use h, length-emplace id p.released_ids free, v.total);
      split = λ k.
          omega
            (arith, v.split k, count-without id k in_use h, count-emplace id k p.released_ids free);
    }

-- Returning an identifier that is in use keeps the pool valid.
pub return_id-Valid :
    (p : Pool) (in_use : List ℕ) (id : ℕ)
    → Valid p in_use
    → 0 < count id in_use
    → Valid (return_id p id) (without id in_use)
unfolding return_id
return_id-Valid p in_use id v h =
    let left = without id in_use in
    let n = length-without id in_use h in
    let e : (p.borrowed_count + 2 ^ 32 - 1) % 2 ^ 32 ≡ length left =
      omega (arith, v.counted, v.limited) in
    rw e (elim (Bool-cases (length left == 0)) [
      | inl last ↦ rw last (cleared-Valid left (ground (arith, last)))
      | inr others ↦ rw others (elim (Bool-cases (p.next_id == id + 1)) [
        | inl newest ↦ rw newest (rolled_back-Valid p in_use id v h (ground (arith, newest)))
        | inr older ↦ rw older (released-Valid p in_use id v h)
      ])
    ])
