-- ===== src/NvHash.antt =====
-- Lacewing/src/nvhash.c: names and values in a uthash table. A value is the memory that the item
-- points to; the string that it reads as ends at the first NUL.
pub mod Laws
use bluewing_cpp_server.Prelude.{
  ℕ, Bool, Option, none, some, List, [], ◌∷◌, if◌then◌else◌, Bytes, length, take,
}
use bluewing_cpp_server.CLib.{cstr}
use bluewing_cpp_server.UtHash.{UtHash, assign}

abbrev pub read : Option Bytes → Bytes → Bytes
read (some value) def = cstr value
read none def = def

module _ (H : UtHash Bytes) where
  open H use {Table, find, del, items}

  -- With `copy` the item gets a copy of `value_len` bytes, without it the pointer itself.
  unfoldable pub set_ex : Table → ℕ → Bytes → ℕ → Bytes → Bool → Table
  set_ex hash key_len key value_len value copy =
      let held = if copy then take value_len value else value in
      let name = take key_len key in assign H hash name held (find hash name)

  unfoldable pub set : Table → Bytes → Bytes → Bool → Table
  set hash key value copy = set_ex hash (length (cstr key)) key (length (cstr value)) value copy

  unfoldable pub get : Table → Bytes → Bytes → Bytes
  get hash key def = read (find hash (cstr key)) def

  -- The HASH_ITER loop over the items that there were at its start.
  del_each : Table → List (Bytes × Bytes) → Table
  del_each hash [] = hash
  del_each hash ((key, value) ∷ rest) = del_each (del hash key) rest

  -- The `while (*hash)` loop behind it is left out: it has nothing left to delete.
  unfoldable pub clear : Table → Table
  unfolding del_each
  clear hash = del_each hash (items hash)
