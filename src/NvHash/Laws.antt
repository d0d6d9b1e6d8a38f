-- ===== src/NvHash/Laws.antt =====
-- What the name and value table promises its clients.
use bluewing_cpp_server.Prelude.{
  ℕ, Bool, some, List, [], ◌∷◌, ◌≡◌, refl, arith, if◌then◌else◌, Bytes, bytes_eq, bytes_eq_refl,
  length, take,
}
use bluewing_cpp_server.CLib.{cstr}
use bluewing_cpp_server.UtHash.{UtHash, erase, find-assign}
use bluewing_cpp_server.NvHash.{set_ex, set, get, del_each, clear}

cstr-cstr : (s : Bytes) → cstr (cstr s) ≡ cstr s
unfolding cstr
cstr-cstr [] = refl
cstr-cstr (c ∷ s) = ground (arith, cstr-cstr s)

take-cstr : (s : Bytes) → take (length (cstr s)) s ≡ cstr s
unfolding cstr
take-cstr [] = refl
take-cstr (c ∷ s) = ground (arith, take-cstr s)

module _ (H : UtHash Bytes) where
  open H use {
    Table, find, add_keyptr, del, store, items, find-items, items-add, items-del, items-store,
  }

  -- A write is seen at its own key, and nowhere else, whether the key was there or is new.
  pub find-set_ex :
      (hash : Table) (key : Bytes) (n : ℕ) (value : Bytes) (m : ℕ) (copy : Bool) (j : Bytes)
      → find (set_ex H hash n key m value copy) j ≡ (
          if bytes_eq (take n key) j
          then some (if copy then take m value else value)
          else find hash j)
  unfolding set_ex
  find-set_ex hash key n value m copy j = find-assign H hash (take n key) j _ _ refl

  -- A value that is set, copied or not, is what its name reads as, up to the first NUL, and what
  -- other names read as stays the same.
  pub get-set :
      (hash : Table) (key value : Bytes) (copy : Bool) (j def : Bytes)
      → get H (set H hash key value copy) j def
        ≡ (if bytes_eq (cstr key) (cstr j) then cstr value else get H hash j def)
  unfolding get set
  get-set hash key value copy j def =
      rw (find-set_ex, take-cstr key, take-cstr value) (ground (arith, cstr-cstr value))

  -- After `lwp_nvhash_clear` no item is left, so its second loop has nothing to do.
  del_each-all :
      (l : List (Bytes × Bytes)) (hash : Table) → items hash ≡ l → items (del_each H hash l) ≡ []
  unfolding del_each erase
  del_each-all [] hash e = e
  del_each-all ((key, value) ∷ l) hash e =
      del_each-all l (del hash key) (rw (items-del, e, erase, bytes_eq_refl key))

  -- Clearing leaves a table without items.
  pub items-clear : (hash : Table) → items (clear H hash) ≡ []
  unfolding clear
  items-clear hash = del_each-all (items hash) hash refl
