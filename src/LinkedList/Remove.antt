-- ===== src/LinkedList/Remove.antt =====
-- Taking an element out of the linked list.
use bluewing_cpp_server.Prelude.{
  ℕ, ◌<◌, false, none, some, [], ◌∷◌, ◌++◌, ◌≡◌, ◌≢◌, refl, sym, arith, if◌then◌else◌, All,
  length-append,
}
use bluewing_cpp_server.LinkedList.{
  Pointer, Linked, Memory, same, put, write_next, write_prev, list_length, front, back, remove,
  unlink,
}
use bluewing_cpp_server.LinkedList.Segment.{
  Run, head_or, last_or, Segment, Absent, AreDistinct, AreApart, last_or-append, Segment-append,
  Segment-split, Segment-frame, put_frame, write_prev_frame, write_last-other, Segment-write_next,
  Segment-write_prev,
}
use bluewing_cpp_server.LinkedList.Refine.{Represents, Absent-append, Absent-split}

module _ {V : Type 0} where
  Apart_nil : (ys : Run V) → AreApart [] ys
  Apart_nil [] = tt
  Apart_nil (y ∷ ys) = (tt, Apart_nil ys)

  Apart_cons : (x : ℕ × V) (xs ys : Run V) → Absent x.0 ys → AreApart xs ys → AreApart (x ∷ xs) ys
  Apart_cons x xs [] h k = tt
  Apart_cons x xs (y ∷ ys) (n, h) (m, k) = ((λ e. n (sym e), m), Apart_cons x xs ys h k)

  Apart_uncons : (x : ℕ × V) (xs ys : Run V) → AreApart (x ∷ xs) ys → Absent x.0 ys × AreApart xs ys
  Apart_uncons x xs [] k = (tt, tt)
  Apart_uncons x xs (y ∷ ys) ((n, m), k) =
      let (h, k') = Apart_uncons x xs ys k in ((λ e. n (sym e), h), (m, k'))

  AreDistinct-split :
      (xs ys : Run V) → AreDistinct (xs ++ ys) → AreDistinct xs × AreDistinct ys × AreApart xs ys
  AreDistinct-split [] ys d = (tt, d, Apart_nil ys)
  AreDistinct-split (x ∷ xs) ys (h, d) =
      let (dx, dy, k) = AreDistinct-split xs ys d in
      let (hx, hy) = Absent-split x.0 xs ys h in ((hx, dx), dy, Apart_cons x xs ys hy k)

  AreDistinct-append :
      (xs ys : Run V) → AreDistinct xs → AreDistinct ys → AreApart xs ys → AreDistinct (xs ++ ys)
  AreDistinct-append [] ys dx dy k = dy
  AreDistinct-append (x ∷ xs) ys (h, dx) dy k =
      let (hy, k') = Apart_uncons x xs ys k in
      (Absent-append x.0 xs ys h hy, AreDistinct-append xs ys dx dy k')

  allocated-remove :
      (xs ys : Run V) (x : ℕ × V) (n : ℕ)
      → All (λ x. x.0 < n) (xs ++ x ∷ ys)
      → All (λ x. x.0 < n) (xs ++ ys)
  allocated-remove [] ys x n (k, h) = h
  allocated-remove (y ∷ xs) ys x n (k, h) = (k, allocated-remove xs ys x n h)

  -- The write to the first element of a run leaves another run alone.
  write_first_frame :
      (memory : Memory V) (q : Pointer) (xs ys : Run V)
      → AreApart xs ys
      → All (λ x. write_prev (head_or none ys) q memory x.0 ≡ memory x.0) xs
  unfolding write_prev
  write_first_frame memory q [] ys k = tt
  write_first_frame memory q (x ∷ xs) [] k = (refl, write_first_frame memory q xs [] tt)
  write_first_frame memory q (x ∷ xs) ((b, w) ∷ ys) ((n, h), k) =
      write_prev_frame memory b q (x ∷ xs) (n, h)

  -- The write to the last element of a run leaves another run alone.
  write_last_frame :
      (memory : Memory V) (m : Pointer) (xs ys : Run V)
      → AreApart xs ys
      → All (λ y. write_next (last_or none xs) m memory y.0 ≡ memory y.0) ys
  unfolding write_next
  write_last_frame memory m xs [] k = tt
  write_last_frame memory m [] (y ∷ ys) (h, k) = (refl, write_last_frame memory m [] ys k)
  write_last_frame memory m ((b, w) ∷ xs) (y ∷ ys) ((n, h), k) =
      (write_last-other memory y.0 b m xs n h, write_last_frame memory m ((b, w) ∷ xs) ys k)

  relink_prev :
      (memory : Memory V) (p q : Pointer) (ys : Run V)
      → AreDistinct ys
      → Segment memory p ys none
      → Segment (write_prev (head_or none ys) q memory) q ys none
  relink_prev memory p q [] d s = tt
  relink_prev memory p q ((b, w) ∷ ys) (h, d) s = Segment-write_prev memory p q none b w ys h s

  relink_next :
      (memory : Memory V) (n m : Pointer) (xs : Run V)
      → AreDistinct xs
      → Segment memory none xs n
      → Segment (write_next (last_or none xs) m memory) none xs m
  relink_next memory n m [] d s = tt
  relink_next memory n m ((b, w) ∷ xs) d s = Segment-write_next memory none n m b w xs d s

  -- The neighbours of an element that is taken out are linked to each other.
  Segment-removed :
      (memory : Memory V) (xs ys : Run V) (a : ℕ)
      → Segment memory none xs (some a)
      → Segment memory (some a) ys none
      → AreDistinct xs
      → AreDistinct ys
      → AreApart xs ys
      → Absent a xs
      → Absent a ys
      → Segment
          (put a none (
            write_next
              (last_or none xs)
              (head_or none ys)
              (write_prev (head_or none ys) (last_or none xs) memory)))
          none
          (xs ++ ys)
          none
  Segment-removed memory xs ys a sx sy dx dy k hx hy =
      let before = write_prev (head_or none ys) (last_or none xs) memory in
      let linked = write_next (last_or none xs) (head_or none ys) before in
      let sx' =
        Segment-frame memory before none (some a) xs
          (write_first_frame memory (last_or none xs) xs ys k) sx in
      let sx'' = relink_next before (some a) (head_or none ys) xs dx sx' in
      let sy' = relink_prev memory (some a) (last_or none xs) ys dy sy in
      let sy'' =
        Segment-frame before linked (last_or none xs) none ys
          (write_last_frame before (head_or none ys) xs ys k) sy' in
      Segment-append (put a none linked) none none xs ys
        (Segment-frame linked (put a none linked) none (head_or none ys) xs
          (put_frame linked a none xs hx) sx'')
        (Segment-frame linked (put a none linked) (last_or none xs) none ys
          (put_frame linked a none ys hy) sy'')

  removed_first :
      (xs ys : Run V) (a : ℕ) (v : V)
      → Absent a xs
      → (if same (head_or none (xs ++ (a, v) ∷ ys)) a
          then head_or none ys
          else head_or none (xs ++ (a, v) ∷ ys))
        ≡ head_or none (xs ++ ys)
  unfolding same
  removed_first [] ys a v h = ground arith
  removed_first ((b, w) ∷ xs) ys a v (n, h) = ground arith

  last-differs : (b a : ℕ) (ys : Run V) → b ≢ a → Absent a ys → same (last_or (some b) ys) a ≡ false
  unfolding same
  last-differs b a [] n h = ground arith
  last-differs b a ((c, w) ∷ ys) n (m, h) = last-differs c a ys m h

  removed_last :
      (xs ys : Run V) (a : ℕ) (v : V)
      → Absent a ys
      → (if same (last_or (some a) ys) a then last_or none xs else last_or (some a) ys)
        ≡ last_or (last_or none xs) ys
  unfolding same
  removed_last xs [] a v h = ground arith
  removed_last xs ((b, w) ∷ ys) a v (n, h) = rw (last-differs b a ys n h)

  -- Removing an element, wherever it stands in a list, leaves the list of the others in their
  -- order.
  pub remove-Represents :
      (l : Linked V) (xs ys : Run V) (a : ℕ) (v : V)
      → Represents l (xs ++ (a, v) ∷ ys)
      → Represents (remove l (some a)) (xs ++ ys)
  unfolding remove unlink front back list_length
  remove-Represents l xs ys a v r =
      let (sx, (e, sy)) = Segment-split l.memory none none xs ((a, v) ∷ ys) r.linked in
      let (dx, (hy, dy), k) = AreDistinct-split xs ((a, v) ∷ ys) r.distinct in
      let (hx, k') = k in
      rw e (record {
        first = rw r.first (removed_first xs ys a v hx);
        last =
            rw (r.last, last_or-append none xs ((a, v) ∷ ys), last_or-append none xs ys)
              (removed_last xs ys a v hy);
        counted = omega (arith, r.counted, length-append xs ((a, v) ∷ ys), length-append xs ys);
        linked = Segment-removed l.memory xs ys a sx sy dx dy k' hx hy;
        distinct = AreDistinct-append xs ys dx dy k';
        allocated = allocated-remove xs ys (a, v) l.fresh r.allocated;
      })
