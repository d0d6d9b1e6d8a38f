-- ===== src/LinkedList/Loops.antt =====
-- The loop that goes from the back of the list, and the one that frees it.
use bluewing_cpp_server.Prelude.{
  ℕ, zero, suc, none, some, [], ◌∷◌, ◌++◌, map, ◌≡◌, refl, sym, subst, arith, inl, inr, All, length,
  length-append, Option-cases,
}
use bluewing_cpp_server.LinkedList.{
  Pointer, Element, Linked, Memory, put, list_length, front, back, each_r, clear, free_from,
}
use bluewing_cpp_server.LinkedList.Segment.{
  Run, head_or, last_or, Segment, AreDistinct, last_or-append, Segment-split, Segment-frame,
  put_frame,
}
use bluewing_cpp_server.LinkedList.Refine.{Represents}

module _ {V : Type 0} where
  abbrev pub reverse : Run V → Run V
  reverse [] = []
  reverse (x ∷ xs) = reverse xs ++ x ∷ []

  length-reverse : (xs : Run V) → length (reverse xs) ≡ length xs
  length-reverse [] = refl
  length-reverse (x ∷ xs) = omega (arith, length-append (reverse xs) (x ∷ []), length-reverse xs)

  each_r-Segment :
      (l : Linked V) (n : Pointer) (xs : Run V)
      → Segment l.memory none (reverse xs) n
      → each_r (length xs) l (last_or none (reverse xs)) ≡ map (λ x. x.1) xs
  unfolding each_r
  each_r-Segment l n [] s = refl
  each_r-Segment l n ((a, v) ∷ xs) s =
      let (t, (e, u)) = Segment-split l.memory none n (reverse xs) ((a, v) ∷ []) s in
      rw (last_or-append none (reverse xs) ((a, v) ∷ []), e, each_r-Segment l (some a) xs t)

  -- The loop from the back of a list comes to every value once, the last of the list first.
  pub each_r-Represents :
      (l : Linked V) (xs : Run V)
      → Represents l (reverse xs)
      → each_r (list_length l) l (back l) ≡ map (λ x. x.1) xs
  each_r-Represents l xs r =
      rw (r.counted, r.last, length-reverse xs) (each_r-Segment l none xs r.linked)

  freed_stays :
      (fuel : ℕ) (memory : Memory V) (p : Pointer) (a : ℕ)
      → memory a ≡ none
      → free_from fuel memory p a ≡ none
  unfolding free_from put
  freed_stays zero memory p a e = e
  freed_stays (suc fuel) memory none a e = e
  freed_stays (suc fuel) memory (some b) a e = elim (Option-cases (memory b)) [
    | inl gone ↦ rw (gone, free_from) e
    | inr (elem, here) ↦
        rw (here, free_from) (freed_stays fuel (put b none memory) elem.next a (ground (arith, e)))
  ]

  free_step :
      (fuel : ℕ) (memory : Memory V) (a : ℕ) {elem : Element V}
      → memory a ≡ some elem
      → free_from (suc fuel) memory (some a) ≡ free_from fuel (put a none memory) elem.next
  unfolding free_from
  free_step fuel memory a e = rw (e, free_from)

  freed-Segment :
      (memory : Memory V) (p : Pointer) (xs : Run V)
      → Segment memory p xs none
      → AreDistinct xs
      → All (λ x. free_from (length xs) memory (head_or none xs) x.0 ≡ none) xs
  unfolding put
  freed-Segment memory p [] s d = tt
  freed-Segment memory p ((a, v) ∷ xs) (e, s) (h, d) =
      subst (λ m. All (λ x. m x.0 ≡ none) ((a, v) ∷ xs)) (sym (free_step (length xs) memory a e))
        (
          freed_stays (length xs) (put a none memory) (head_or none xs) a (ground arith),
          freed-Segment (put a none memory) (some a) xs
              (Segment-frame memory (put a none memory) (some a) none xs
                (put_frame memory a none xs h) s)
              d,
        )

  -- Clearing a list frees each of its elements, and leaves the empty list.
  pub clear-Represents :
      (l : Linked V) (xs : Run V)
      → Represents l xs
      → All (λ x. (clear l).memory x.0 ≡ none) xs × Represents (clear l) []
  unfolding clear front back list_length
  clear-Represents l xs r = (
    rw (r.counted, r.first) (freed-Segment l.memory none xs r.linked r.distinct),
    record {
      first = refl;
      last = refl;
      counted = refl;
      linked = tt;
      distinct = tt;
      allocated = tt;
    },
  )
