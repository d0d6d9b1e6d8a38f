-- ===== src/IdPool/Reach.antt =====
-- The pools that borrowing and returning lead to.
use bluewing_cpp_server.Prelude.{
  ℕ, ◌<◌, ◌≤◌, Option, none, some, List, [], ◌∷◌, ltb, ◌≡◌, sym, arith, inl, inr, length,
  Bool-cases, ◌∙◌, subst,
}
use bluewing_cpp_server.IdPool.{Pool, new, limit, borrow, return_id}
use bluewing_cpp_server.IdPool.Laws.{
  count, without, Valid, new-Valid, borrow-Valid, borrow-full, return_id-Valid,
}

-- A pool with the identifiers in use, the latest first.
pub data Reach : Pool → List ℕ → Type 0 where
  reach_new : Reach new []
  reach_borrow :
      {p q : Pool} {in_use : List ℕ} {id : ℕ}
      → Reach p in_use
      → borrow p ≡ (some id, q)
      → Reach q (id ∷ in_use)
  reach_return :
      {p : Pool} {in_use : List ℕ} (id : ℕ)
      → Reach p in_use
      → 0 < count id in_use
      → Reach (return_id p id) (without id in_use)

abbrev id_of : Option ℕ → ℕ
id_of none = 0
id_of (some id) = id

borrowed-Valid :
    (p q : Pool) (in_use : List ℕ) (id : ℕ)
    → Valid p in_use
    → borrow p ≡ (some id, q)
    → Valid q (id ∷ in_use)
borrowed-Valid p q in_use id v e = elim (Bool-cases (ltb (length in_use) limit)) [
  | inl room ↦
      let (i, r, f, w, z, m) = borrow-Valid p in_use v (ground (arith, room)) in
      let g : (some i, r) ≡ (some id, q) = sym f ∙ e in
      subst (λ x. Valid x.1 (id_of x.0 ∷ in_use)) g w
  | inr full ↦ let f = borrow-full p in_use v (ground (arith, full, v.limited)) in absurd cc
]

Reach-Valid : {p : Pool} {in_use : List ℕ} → Reach p in_use → Valid p in_use
Reach-Valid reach_new = new-Valid
Reach-Valid (reach_borrow r e) = borrowed-Valid _ _ _ _ (Reach-Valid r) e
Reach-Valid (reach_return id r h) = return_id-Valid _ _ id (Reach-Valid r) h

-- However identifiers were borrowed from a new pool, and those in use returned, no two that are in use
-- are the same, and at most 65534 are in use.
pub Reach-distinct :
    {p : Pool} {in_use : List ℕ}
    → Reach p in_use
    → (k : ℕ) → (count k in_use ≤ 1) × (length in_use ≤ limit)
Reach-distinct r k = let v = Reach-Valid r in (ground (arith, v.split k), v.limited)
