-- ===== src/LinkedList/Segment.antt =====
-- Runs of linked elements in a memory.
use bluewing_cpp_server.Prelude.{
  ℕ, Option, some, List, [], ◌∷◌, ◌++◌, ◌≡◌, ◌≢◌, ◌∙◌, refl, arith, All,
}
use bluewing_cpp_server.LinkedList.{Pointer, Element, Memory, put, write_next, write_prev}

-- The elements of a run, with their addresses.
abbrev pub Run : Type 0 → Type 0
Run V = List (ℕ × V)

module _ {V : Type 0} where
  -- The address of the first element, or the pointer behind the run.
  abbrev pub head_or : Pointer → Run V → Pointer
  head_or n [] = n
  head_or n ((a, v) ∷ xs) = some a

  -- The address of the last element, or the pointer in front of the run.
  abbrev pub last_or : Pointer → Run V → Pointer
  last_or p [] = p
  last_or p ((a, v) ∷ xs) = last_or (some a) xs

  -- The run lies in memory, linked in both directions, from behind `p` to `n`.
  abbrev pub Segment : Memory V → Pointer → Run V → Pointer → Type 0
  Segment memory p [] n = Unit
  Segment memory p ((a, v) ∷ xs) n =
      (memory a ≡ some (record { prev = p; next = head_or n xs; value = v }))
      × Segment memory (some a) xs n

  abbrev pub Absent : ℕ → Run V → Type 0
  Absent a xs = All (λ x. x.0 ≢ a) xs

  abbrev pub AreDistinct : Run V → Type 0
  AreDistinct [] = Unit
  AreDistinct ((a, v) ∷ xs) = Absent a xs × AreDistinct xs

  abbrev pub AreApart : Run V → Run V → Type 0
  AreApart xs ys = All (λ y. Absent y.0 xs) ys

  pub head_or-append :
      (n : Pointer) (xs ys : Run V) → head_or n (xs ++ ys) ≡ head_or (head_or n ys) xs
  head_or-append n [] ys = refl
  head_or-append n ((a, v) ∷ xs) ys = refl

  pub last_or-append :
      (p : Pointer) (xs ys : Run V) → last_or p (xs ++ ys) ≡ last_or (last_or p xs) ys
  last_or-append p [] ys = refl
  last_or-append p ((a, v) ∷ xs) ys = last_or-append (some a) xs ys

  pub Segment-append :
      (memory : Memory V) (p n : Pointer) (xs ys : Run V)
      → Segment memory p xs (head_or n ys)
      → Segment memory (last_or p xs) ys n
      → Segment memory p (xs ++ ys) n
  Segment-append memory p n [] ys s t = t
  Segment-append memory p n ((a, v) ∷ xs) ys (e, s) t =
      (rw (head_or-append n xs ys) e, Segment-append memory (some a) n xs ys s t)

  pub Segment-split :
      (memory : Memory V) (p n : Pointer) (xs ys : Run V)
      → Segment memory p (xs ++ ys) n
      → Segment memory p xs (head_or n ys) × Segment memory (last_or p xs) ys n
  Segment-split memory p n [] ys s = (tt, s)
  Segment-split memory p n ((a, v) ∷ xs) ys (e, s) =
      let (s', t) = Segment-split memory (some a) n xs ys s in
      ((rw (← head_or-append n xs ys) e, s'), t)

  pub Segment-frame :
      (memory memory' : Memory V) (p n : Pointer) (xs : Run V)
      → All (λ x. memory' x.0 ≡ memory x.0) xs
      → Segment memory p xs n
      → Segment memory' p xs n
  Segment-frame memory memory' p n [] f s = tt
  Segment-frame memory memory' p n ((a, v) ∷ xs) (f, fs) (e, s) =
      (f ∙ e, Segment-frame memory memory' (some a) n xs fs s)

  pub put_frame :
      (memory : Memory V) (a : ℕ) (e : Option (Element V)) (xs : Run V)
      → Absent a xs
      → All (λ x. put a e memory x.0 ≡ memory x.0) xs
  unfolding put
  put_frame memory a e [] h = tt
  put_frame memory a e ((b, v) ∷ xs) (n, h) = (ground arith, put_frame memory a e xs h)

  pub write_prev_frame :
      (memory : Memory V) (a : ℕ) (q : Pointer) (xs : Run V)
      → Absent a xs
      → All (λ x. write_prev (some a) q memory x.0 ≡ memory x.0) xs
  unfolding write_prev
  write_prev_frame memory a q [] h = tt
  write_prev_frame memory a q ((b, v) ∷ xs) (n, h) =
      (ground arith, write_prev_frame memory a q xs h)

  pub write_next_frame :
      (memory : Memory V) (a : ℕ) (q : Pointer) (xs : Run V)
      → Absent a xs
      → All (λ x. write_next (some a) q memory x.0 ≡ memory x.0) xs
  unfolding write_next
  write_next_frame memory a q [] h = tt
  write_next_frame memory a q ((b, v) ∷ xs) (n, h) =
      (ground arith, write_next_frame memory a q xs h)

  -- A write to the last element of a run does not touch another address.
  pub write_last-other :
      (memory : Memory V) (a b : ℕ) (m : Pointer) (xs : Run V)
      → b ≢ a
      → Absent a xs
      → write_next (last_or (some b) xs) m memory a ≡ memory a
  unfolding write_next
  write_last-other memory a b m [] n h = ground arith
  write_last-other memory a b m ((c, v) ∷ xs) n (k, h) = write_last-other memory a c m xs k h

  -- The pointer behind a run, written anew.
  pub Segment-write_next :
      (memory : Memory V) (p n m : Pointer) (a : ℕ) (v : V) (xs : Run V)
      → AreDistinct ((a, v) ∷ xs)
      → Segment memory p ((a, v) ∷ xs) n
      → Segment (write_next (last_or (some a) xs) m memory) p ((a, v) ∷ xs) m
  unfolding write_next
  Segment-write_next memory p n m a v [] d (e, s) = (ground (arith, e), tt)
  Segment-write_next memory p n m a v ((b, w) ∷ xs) ((k, ks), d) (e, s) =
      (write_last-other memory a b m xs k ks ∙ e, Segment-write_next memory (some a) n m b w xs d s)

  -- The pointer in front of a run, written anew.
  pub Segment-write_prev :
      (memory : Memory V) (p q n : Pointer) (a : ℕ) (v : V) (xs : Run V)
      → Absent a xs
      → Segment memory p ((a, v) ∷ xs) n
      → Segment (write_prev (some a) q memory) q ((a, v) ∷ xs) n
  unfolding write_prev
  Segment-write_prev memory p q n a v xs h (e, s) = (
    ground (arith, e),
    Segment-frame memory (write_prev (some a) q memory) (some a) n xs
        (write_prev_frame memory a q xs h) s,
  )
