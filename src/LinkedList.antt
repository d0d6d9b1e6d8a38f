-- ===== src/LinkedList.antt =====
-- Lacewing/src/list.c: the doubly linked list behind the macros of list.h. The elements of a list
-- stand in a memory, `none` is a null pointer, and each element's `list` is this one.
pub mod Segment
pub mod Refine
pub mod Remove
pub mod Loops
use bluewing_cpp_server.Prelude.{
  ℕ, zero, suc, ◌+◌, ◌-◌, Bool, true, false, Option, none, some, List, [], ◌∷◌, ◌==◌, if◌then◌else◌,
}

abbrev pub Pointer : Type 0
Pointer = Option ℕ

-- `struct list_element`, and the value behind it.
pub record Element (V : Type 0) : Type 0 where
  pub prev : Pointer
  pub next : Pointer
  pub value : V

-- `struct list_head`
pub record ListHead : Type 0 where
  pub first : Pointer
  pub last : Pointer
  pub length : ℕ

unfoldable pub same : Pointer → ℕ → Bool
same none a = false
same (some b) a = b == a

-- A pointer, or the other one if it is null.
abbrev pub either : Pointer → Pointer → Pointer
either none p = p
either (some a) p = some a

abbrev pub Memory : Type 0 → Type 0
Memory V = ℕ → Option (Element V)

-- A list and its elements; `malloc` gives an address that no element has.
pub record Linked (V : Type 0) : Type 0 where
  pub head : Option ListHead
  pub memory : Memory V
  pub fresh : ℕ

-- The head, which the first push makes.
abbrev pub head_of : Option ListHead → ListHead
head_of none = record { first = none; last = none; length = 0 }
head_of (some h) = h

module _ {V : Type 0} where
  unfoldable pub put : ℕ → Option (Element V) → Memory V → Memory V
  put a e memory b = if b == a then e else memory b

  abbrev pub with_next : Pointer → Option (Element V) → Option (Element V)
  with_next p none = none
  with_next p (some e) = some (record e { next = p })

  abbrev pub with_prev : Pointer → Option (Element V) → Option (Element V)
  with_prev p none = none
  with_prev p (some e) = some (record e { prev = p })

  -- `if (at) at->next = p;`
  unfoldable pub write_next : Pointer → Pointer → Memory V → Memory V
  write_next none p memory b = memory b
  write_next (some a) p memory b = if b == a then with_next p (memory b) else memory b

  -- `if (at) at->prev = p;`
  unfoldable pub write_prev : Pointer → Pointer → Memory V → Memory V
  write_prev none p memory b = memory b
  write_prev (some a) p memory b = if b == a then with_prev p (memory b) else memory b

  -- _list_length
  unfoldable pub list_length : Linked V → ℕ
  list_length l = (head_of l.head).length

  -- _list_push
  unfoldable pub push : Linked V → V → Linked V
  push l value =
      let h = head_of l.head in
      let elem = l.fresh in
      record {
        head = some (record {
          first = elim h.last [ none ↦ some elem | some _ ↦ h.first ];
          last = some elem;
          length = h.length + 1;
        });
        memory =
            write_next h.last (some elem)
              (put elem (some (record { prev = h.last; next = none; value = value })) l.memory);
        fresh = elem + 1;
      }

  -- _list_push_front
  unfoldable pub push_front : Linked V → V → Linked V
  push_front l value =
      let h = head_of l.head in
      let elem = l.fresh in
      record {
        head = some (record {
          first = some elem;
          last = elim h.first [ none ↦ some elem | some _ ↦ h.last ];
          length = h.length + 1;
        });
        memory =
            write_prev h.first (some elem)
              (put elem (some (record { prev = none; next = h.first; value = value })) l.memory);
        fresh = elem + 1;
      }

  -- _list_front, _list_back
  unfoldable pub front : Linked V → Pointer
  front l = (head_of l.head).first

  unfoldable pub back : Linked V → Pointer
  back l = (head_of l.head).last

  -- _list_next, _list_prev; a null or a stale pointer has none.
  unfoldable pub next : Linked V → Pointer → Pointer
  next l none = none
  next l (some a) = elim (l.memory a) [ none ↦ none | some e ↦ e.next ]

  unfoldable pub prev : Linked V → Pointer → Pointer
  prev l none = none
  prev l (some a) = elim (l.memory a) [ none ↦ none | some e ↦ e.prev ]

  unlink : Linked V → ListHead → ℕ → Element V → Linked V
  unlink l h a e = record l {
    head = some (record {
      first = if same h.first a then e.next else h.first;
      last = if same h.last a then e.prev else h.last;
      length = h.length - 1;
    });
    memory = put a none (write_next e.prev e.next (write_prev e.next e.prev l.memory));
  }

  abbrev unlink_found : Linked V → ℕ → Option (Element V) → Linked V
  unlink_found l a none = l
  unlink_found l a (some e) = unlink l (head_of l.head) a e

  -- _list_remove
  unfoldable pub remove : Linked V → Pointer → Linked V
  unfolding unlink
  remove l none = l
  remove l (some a) = unlink_found l a (l.memory a)

  -- The loop of `_list_clear`, by fuel.
  unfoldable pub free_from : ℕ → Memory V → Pointer → Memory V
  free_from zero memory p = memory
  free_from (suc fuel) memory none = memory
  free_from (suc fuel) memory (some a) = elim (memory a) [
    | none ↦ memory
    | some e ↦ free_from fuel (put a none memory) e.next
  ]

  -- _list_clear
  unfoldable pub clear : Linked V → Linked V
  clear l = record l { head = none; memory = free_from (list_length l) l.memory (front l) }

  -- The values that `list_each` comes to, by fuel.
  unfoldable pub each : ℕ → Linked V → Pointer → List V
  each zero l p = []
  each (suc fuel) l none = []
  each (suc fuel) l (some a) = elim (l.memory a) [
    | none ↦ []
    | some e ↦ e.value ∷ each fuel l e.next
  ]

  -- Back to front, as `list_each_r`.
  unfoldable pub each_r : ℕ → Linked V → Pointer → List V
  each_r zero l p = []
  each_r (suc fuel) l none = []
  each_r (suc fuel) l (some a) = elim (l.memory a) [
    | none ↦ []
    | some e ↦ e.value ∷ each_r fuel l e.prev
  ]
