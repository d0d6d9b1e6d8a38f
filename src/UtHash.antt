-- ===== src/UtHash.antt =====
-- The hash table macros of Lacewing/deps/uthash, which the program includes: an interface, since
-- the code is a copy of another project's. A table is its items in the order of insertion (the
-- `hh.next` chain from the head), as uthash documents it.
use bluewing_cpp_server.Prelude.{
  Option, none, some, List, [], ◌∷◌, ◌++◌, ◌≡◌, ◌∙◌, refl, arith, if◌then◌else◌, Bytes, bytes_eq,
  bytes_eq_iff,
}

module _ {V : Type 0} where
  unfoldable pub lookup : Bytes → List (Bytes × V) → Option V
  lookup k [] = none
  lookup k ((j, v) ∷ l) = if bytes_eq j k then some v else lookup k l

  -- The first item of a key taken out.
  unfoldable pub erase : Bytes → List (Bytes × V) → List (Bytes × V)
  erase k [] = []
  erase k ((j, v) ∷ l) = if bytes_eq j k then l else (j, v) ∷ erase k l

  -- The first item of a key given another value.
  unfoldable pub replace : Bytes → V → List (Bytes × V) → List (Bytes × V)
  replace k w [] = []
  replace k w ((j, v) ∷ l) = if bytes_eq j k then (j, w) ∷ l else (j, v) ∷ replace k w l

  pub lookup-concat :
      (k j : Bytes) (v : V) (l : List (Bytes × V))
      → lookup k l ≡ none
      → lookup j (l ++ (k, v) ∷ []) ≡ (if bytes_eq k j then some v else lookup j l)
  unfolding lookup
  lookup-concat k j v [] h = refl
  lookup-concat k j v ((i, w) ∷ l) h =
      ground (arith, bytes_eq_iff i k, bytes_eq_iff i j, bytes_eq_iff k j, lookup-concat k j v l)

  pub lookup-replace :
      (k j : Bytes) (v w : V) (l : List (Bytes × V))
      → lookup k l ≡ some w
      → lookup j (replace k v l) ≡ (if bytes_eq k j then some v else lookup j l)
  unfolding lookup replace
  lookup-replace k j v w [] h = cc
  lookup-replace k j v w ((i, x) ∷ l) h =
      ground (arith, bytes_eq_iff i k, bytes_eq_iff i j, bytes_eq_iff k j, lookup-replace k j v w l)

-- A table of items with the value `V`, keyed by bytes.
pub record UtHash (V : Type 0) : Type 1 where
  pub Table : Type 0
  pub empty : Table
  -- HASH_FIND
  pub find : Table → Bytes → Option V
  -- HASH_ADD_KEYPTR
  pub add_keyptr : Table → Bytes → V → Table
  -- HASH_DEL of the item with this key
  pub del : Table → Bytes → Table
  -- a write through the pointer that HASH_FIND gives
  pub store : Table → Bytes → V → Table
  -- the items from the head on
  pub items : Table → List (Bytes × V)
  pub items-empty : items empty ≡ []
  pub find-items : (t : Table) (k : Bytes) → find t k ≡ lookup k (items t)
  pub items-add :
      (t : Table) (k : Bytes) (v : V) → items (add_keyptr t k v) ≡ items t ++ (k, v) ∷ []
  pub items-del : (t : Table) (k : Bytes) → items (del t k) ≡ erase k (items t)
  pub items-store : (t : Table) (k : Bytes) (v : V) → items (store t k v) ≡ replace k v (items t)

-- What the program does with the result of HASH_FIND: write to the item, or add one.
module _ {V : Type 0} (H : UtHash V) where
  open H use {Table, find, add_keyptr, store, items, find-items, items-add, items-store}

  unfoldable pub assign : Table → Bytes → V → Option V → Table
  assign t k v (some old) = store t k v
  assign t k v none = add_keyptr t k v

  -- A write is seen at its own key, and nowhere else, whether the key was there or is new.
  pub find-assign :
      (t : Table) (k j : Bytes) (v : V) (found : Option V)
      → find t k ≡ found
      → find (assign t k v found) j ≡ (if bytes_eq k j then some v else find t j)
  unfolding assign
  find-assign t k j v none e =
      rw (find-items, items-add)
        (lookup-concat k j v (items t) (rw (← find-items t k) e) ∙ rw find-items)
  find-assign t k j v (some old) e =
      rw (find-items, items-store)
        (lookup-replace k j v old (items t) (rw (← find-items t k) e) ∙ rw find-items)

-- The interface can be met: the items themselves.
abbrev pub item_list : (V : Type 0) → UtHash V
item_list V = record {
  Table = List (Bytes × V);
  empty = [];
  find = λ t k. lookup k t;
  add_keyptr = λ t k v. t ++ (k, v) ∷ [];
  del = λ t k. erase k t;
  store = λ t k v. replace k v t;
  items = λ t. t;
  items-empty = refl;
  find-items = λ t k. refl;
  items-add = λ t k v. refl;
  items-del = λ t k. refl;
  items-store = λ t k v. refl;
}
