-- ===== src/Introspect/Entries.antt =====
-- The entries of a description (src/cpp_mcp/graphdb/schema_introspector.py): `_sort_types` and sets of names.
pub mod Order
use cpp_mcp.Base.{
  ℕ, ◌+◌, Text, List, [], ◌∷◌, add_new, ltb, ◌==◌, Bool, if◌then◌else◌, list_eq, nat_eq,
}
use cpp_mcp.Ingest.Collect.{text_le}

pub record Entry : Type 0 where
  pub name : Text
  pub count : ℕ
  pub property_keys : List Text

-- The order of the keys `(-count, name)`.
unfoldable pub entry_le : Entry → Entry → Bool
entry_le a b = if a.count == b.count then text_le a.name b.name else ltb b.count a.count

unfoldable pub insert_entry : Entry → List Entry → List Entry
unfolding entry_le
insert_entry a [] = a ∷ []
insert_entry a (b ∷ es) = if entry_le a b then a ∷ b ∷ es else b ∷ insert_entry a es

-- `_sort_types`
unfoldable pub sort_types : List Entry → List Entry
unfolding insert_entry
sort_types [] = []
sort_types (a ∷ es) = insert_entry a (sort_types es)

-- `sum(t["count"] for t in types)`
unfoldable pub total : List Entry → ℕ
total [] = 0
total (a ∷ es) = a.count + total es

-- A set of names, with the names of a list put in.
unfoldable pub update : List Text → List Text → List Text
unfolding add_new
update keys [] = keys
update keys (k ∷ ks) = update (add_new k keys) ks

unfoldable pub insert_name : Text → List Text → List Text
unfolding text_le
insert_name a [] = a ∷ []
insert_name a (b ∷ names) = if text_le a b then a ∷ b ∷ names else b ∷ insert_name a names

-- `sorted(names)`
unfoldable pub sorted_names : List Text → List Text
unfolding insert_name
sorted_names [] = []
sorted_names (a ∷ names) = insert_name a (sorted_names names)
