-- ===== src/LinkedList/Refine.antt =====
-- The linked list is a list: pushing, removing, clearing and both loops.
use bluewing_cpp_server.Prelude.{
  ℕ, ◌+◌, ◌<◌, ◌≤◌, none, some, [], ◌∷◌, ◌++◌, map, ◌≡◌, ◌∙◌, refl, sym, subst, arith, All, length,
  length-append,
}
use bluewing_cpp_server.LinkedList.{
  Pointer, Element, Linked, Memory, put, write_next, write_prev, list_length, push, push_front,
  front, back, each,
}
use bluewing_cpp_server.LinkedList.Segment.{
  Run, head_or, last_or, Segment, Absent, AreDistinct, last_or-append, Segment-append,
  Segment-frame, put_frame, write_last-other, Segment-write_next, Segment-write_prev,
}

module _ {V : Type 0} where
  -- The list holds these elements at these addresses, in this order.
  pub record Represents (l : Linked V) (xs : Run V) : Type 0 where
    pub first : front l ≡ head_or none xs
    pub last : back l ≡ last_or none xs
    pub counted : list_length l ≡ length xs
    pub linked : Segment l.memory none xs none
    pub distinct : AreDistinct xs
    pub allocated : All (λ x. x.0 < l.fresh) xs

  fresh-Absent : (n : ℕ) (xs : Run V) → All (λ x. x.0 < n) xs → Absent n xs
  fresh-Absent n [] h = tt
  fresh-Absent n ((a, v) ∷ xs) (k, ks) = (λ e. omega arith, fresh-Absent n xs ks)

  pub Absent-append : (a : ℕ) (xs ys : Run V) → Absent a xs → Absent a ys → Absent a (xs ++ ys)
  Absent-append a [] ys h k = k
  Absent-append a (x ∷ xs) ys (n, h) k = (n, Absent-append a xs ys h k)

  pub Absent-split : (a : ℕ) (xs ys : Run V) → Absent a (xs ++ ys) → Absent a xs × Absent a ys
  Absent-split a [] ys h = (tt, h)
  Absent-split a (x ∷ xs) ys (n, h) = let (k, m) = Absent-split a xs ys h in ((n, k), m)

  AreDistinct-snoc :
      (xs : Run V) (a : ℕ) (v : V) → AreDistinct xs → Absent a xs → AreDistinct (xs ++ (a, v) ∷ [])
  AreDistinct-snoc [] a v d h = (tt, tt)
  AreDistinct-snoc ((b, w) ∷ xs) a v (k, d) (n, h) =
      (Absent-append b xs ((a, v) ∷ []) k ((λ e. n (sym e)), tt), AreDistinct-snoc xs a v d h)

  allocated-snoc :
      (xs : Run V) (a : ℕ) (v : V) (n m : ℕ)
      → All (λ x. x.0 < n) xs
      → n ≤ m
      → a < m
      → All (λ x. x.0 < m) (xs ++ (a, v) ∷ [])
  allocated-snoc [] a v n m h le lt = (lt, tt)
  allocated-snoc (x ∷ xs) a v n m (k, h) le lt = (omega arith, allocated-snoc xs a v n m h le lt)

  allocated_weaken : (xs : Run V) (n m : ℕ) → All (λ x. x.0 < n) xs → n ≤ m → All (λ x. x.0 < m) xs
  allocated_weaken [] n m h le = tt
  allocated_weaken (x ∷ xs) n m (k, h) le = (omega arith, allocated_weaken xs n m h le)

  last_or-snoc : (p : Pointer) (xs : Run V) (a : ℕ) (v : V) → last_or p (xs ++ (a, v) ∷ []) ≡ some a
  last_or-snoc p xs a v = last_or-append p xs ((a, v) ∷ [])

  -- A new element behind a run, and the run's last element linked to it.
  Segment-pushed :
      (memory : Memory V) (xs : Run V) (a : ℕ) (v : V)
      → Segment memory none xs none
      → AreDistinct xs
      → Absent a xs
      → Segment
          (write_next
            (last_or none xs)
            (some a)
            (put a (some (record { prev = last_or none xs; next = none; value = v })) memory))
          none
          (xs ++ (a, v) ∷ [])
          none
  unfolding put write_next
  Segment-pushed memory [] a v s d h = (ground arith, tt)
  Segment-pushed memory ((b, w) ∷ xs) a v s d (n, h) =
      let elem : Element V = record { prev = last_or (some b) xs; next = none; value = v } in
      let placed = put a (some elem) memory in
      let whole = Segment-write_next placed none none (some a) b w xs d (
        Segment-frame memory placed none none ((b, w) ∷ xs)
          (put_frame memory a (some elem) ((b, w) ∷ xs) (n, h)) s) in
      Segment-append (write_next (last_or (some b) xs) (some a) placed) none none ((b, w) ∷ xs)
        ((a, v) ∷ []) whole (write_last-other placed a b (some a) xs n h ∙ ground arith, tt)

  last_or-some : (a : ℕ) (xs : Run V) → (b : ℕ) × (last_or (some a) xs ≡ some b)
  last_or-some a [] = (a, refl)
  last_or-some a ((b, v) ∷ xs) = last_or-some b xs

  pushed_first :
      (xs : Run V) (a : ℕ) (v : V) (q f : Pointer)
      → q ≡ last_or none xs
      → f ≡ head_or none xs
      → (elim q [ none ↦ some a | some _ ↦ f ]) ≡ head_or none (xs ++ (a, v) ∷ [])
  pushed_first [] a v q f e h = rw e
  pushed_first ((b, w) ∷ xs) a v q f e h = let (c, k) = last_or-some b xs in rw (e, k) h

  pushed_last :
      (xs : Run V) (a : ℕ) (q f : Pointer)
      → q ≡ last_or none xs
      → f ≡ head_or none xs
      → (elim f [ none ↦ some a | some _ ↦ q ]) ≡ last_or (some a) xs
  pushed_last [] a q f e h = rw h
  pushed_last ((b, w) ∷ xs) a q f e h = rw h e

  -- A new element in front of a run, and the run's first element linked to it.
  Segment-pushed_front :
      (memory : Memory V) (xs : Run V) (a : ℕ) (v : V)
      → Segment memory none xs none
      → AreDistinct xs
      → Absent a xs
      → Segment
          (write_prev
            (head_or none xs)
            (some a)
            (put a (some (record { prev = none; next = head_or none xs; value = v })) memory))
          none
          ((a, v) ∷ xs)
          none
  unfolding put write_prev
  Segment-pushed_front memory [] a v s d h = (ground arith, tt)
  Segment-pushed_front memory ((b, w) ∷ xs) a v s (k, d) (n, h) =
      let elem : Element V = record { prev = none; next = some b; value = v } in
      let placed = put a (some elem) memory in
      (
        ground arith,
        Segment-write_prev placed none (some a) none b w xs k (
            Segment-frame memory placed none none ((b, w) ∷ xs)
              (put_frame memory a (some elem) ((b, w) ∷ xs) (n, h)) s),
      )

  Segment-pushed_at :
      (memory : Memory V) (xs : Run V) (a : ℕ) (v : V) (q : Pointer)
      → q ≡ head_or none xs
      → Segment memory none xs none
      → AreDistinct xs
      → Absent a xs
      → Segment
          (write_prev q
            (some a)
            (put a (some (record { prev = none; next = q; value = v })) memory))
          none
          ((a, v) ∷ xs)
          none
  Segment-pushed_at memory xs a v q e s d h =
      subst
        (λ q.
          Segment
            (write_prev q (some a)
              (put a (some (record { prev = none; next = q; value = v })) memory))
            none ((a, v) ∷ xs) none)
        (sym e) (Segment-pushed_front memory xs a v s d h)

  -- Pushing to a list puts the value behind the others, in a new element.
  pub push-Represents :
      (l : Linked V) (xs : Run V) (value : V)
      → Represents l xs
      → Represents (push l value) (xs ++ (l.fresh, value) ∷ [])
  unfolding push front back list_length
  push-Represents l xs value r = record {
    first = pushed_first xs l.fresh value (back l) (front l) r.last r.first;
    last = sym (last_or-snoc none xs l.fresh value);
    counted = omega (arith, r.counted, length-append xs ((l.fresh, value) ∷ []));
    linked = rw r.last (
        Segment-pushed l.memory xs l.fresh value r.linked r.distinct
          (fresh-Absent l.fresh xs r.allocated));
    distinct = AreDistinct-snoc xs l.fresh value r.distinct (fresh-Absent l.fresh xs r.allocated);
    allocated =
        allocated-snoc xs l.fresh value l.fresh (l.fresh + 1) r.allocated (omega arith)
          (omega arith);
  }

  -- Pushing to the front of a list puts the value before the others, in a new element.
  pub push_front-Represents :
      (l : Linked V) (xs : Run V) (value : V)
      → Represents l xs
      → Represents (push_front l value) ((l.fresh, value) ∷ xs)
  unfolding push_front front back list_length
  push_front-Represents l xs value r = record {
    first = refl;
    last = pushed_last xs l.fresh (back l) (front l) r.last r.first;
    counted = omega (arith, r.counted);
    linked =
        Segment-pushed_at l.memory xs l.fresh value (front l) r.first r.linked r.distinct
          (fresh-Absent l.fresh xs r.allocated);
    distinct = (fresh-Absent l.fresh xs r.allocated, r.distinct);
    allocated = (omega arith, allocated_weaken xs l.fresh (l.fresh + 1) r.allocated (omega arith));
  }

  -- The loop over a run.
  each-Segment :
      (l : Linked V) (p : Pointer) (xs : Run V)
      → Segment l.memory p xs none
      → each (length xs) l (head_or none xs) ≡ map (λ x. x.1) xs
  unfolding each
  each-Segment l p [] s = refl
  each-Segment l p ((a, v) ∷ xs) (e, s) = rw (e, each-Segment l (some a) xs s)

  -- The loop from the front of a list comes to every value once, in the order of the list.
  pub each-Represents :
      (l : Linked V) (xs : Run V)
      → Represents l xs
      → each (list_length l) l (front l) ≡ map (λ x. x.1) xs
  each-Represents l xs r = rw (r.counted, r.first) (each-Segment l none xs r.linked)
