-- ===== src/Introspect/Entries/Order.antt =====
-- What `_sort_types` of src/cpp_mcp/graphdb/schema_introspector.py keeps, and the order that it gives.
use cpp_mcp.Base.{
  ℕ, ◌+◌, Text, List, [], ◌∷◌, elem, map, All, All-map, IsNodup, ◌≟◌, list_eq, nat_eq, list_beq_iff,
  true, false, ◌||◌, if◌then◌else◌, ◌≡◌, refl, arith, inl, inr, Bool-cases,
}
use cpp_mcp.Ingest.Collect.Order.{text_total, text_trans}
use cpp_mcp.Introspect.Entries.{Entry, entry_le, insert_entry, sort_types}

entry_total : (a b : Entry) → entry_le a b ≡ false → entry_le b a ≡ true
unfolding entry_le
entry_total a b h = ground (arith, h, text_total a.name b.name)

entry_trans : (a b c : Entry) → entry_le a b ≡ true → entry_le b c ≡ true → entry_le a c ≡ true
unfolding entry_le
entry_trans a b c h k = ground (arith, h, k, text_trans a.name b.name c.name)

-- Each entry comes before all that follow it: more items first, and by the name where these are as many.
abbrev pub IsSorted : List Entry → Type 0
IsSorted [] = Unit
IsSorted (a ∷ es) = All (λ b. entry_le a b ≡ true) es × IsSorted es

All-insert :
    (P : Entry → Type 0) (a : Entry) (es : List Entry) → P a → All P es → All P (insert_entry a es)
unfolding insert_entry
All-insert P a [] h hs = (h, tt)
All-insert P a (b ∷ es) h hs = elim (Bool-cases (entry_le a b)) [
  | inl before ↦ rw before (h, hs)
  | inr after ↦ rw after (hs.0, All-insert P a es h hs.1)
]

insert-IsSorted : (a : Entry) (es : List Entry) → IsSorted es → IsSorted (insert_entry a es)
unfolding insert_entry
insert-IsSorted a [] h = (tt, tt)
insert-IsSorted a (b ∷ es) h = elim (Bool-cases (entry_le a b)) [
  | inl before ↦ rw before (
    (
      before,
      All-map (λ c. entry_le b c ≡ true) (λ c. entry_le a c ≡ true) es
          (λ c k. entry_trans a b c before k) h.0,
    ),
    h,
  )
  | inr after ↦ rw after (
    All-insert (λ c. entry_le b c ≡ true) a es (entry_total a b after) h.0,
    insert-IsSorted a es h.1,
  )
]

pub sort-IsSorted : (es : List Entry) → IsSorted (sort_types es)
unfolding sort_types
sort-IsSorted [] = tt
sort-IsSorted (a ∷ es) = insert-IsSorted a (sort_types es) (sort-IsSorted es)

abbrev pub names : List Entry → List Text
names = map (λ (a : Entry). a.name)

-- The items that the entries of a name count.
unfoldable pub count_for : Text → List Entry → ℕ
count_for name [] = 0
count_for name (a ∷ es) = (if a.name ≟ name then a.count else 0) + count_for name es

count_for-insert :
    (name : Text) (a : Entry) (es : List Entry)
    → count_for name (insert_entry a es) ≡ count_for name (a ∷ es)
unfolding insert_entry count_for
count_for-insert name a [] = refl
count_for-insert name a (b ∷ es) = ground (arith, count_for-insert name a es)

pub count_for-sort :
    (name : Text) (es : List Entry) → count_for name (sort_types es) ≡ count_for name es
unfolding sort_types count_for
count_for-sort name [] = refl
count_for-sort name (a ∷ es) =
    ground (arith, count_for-insert name a (sort_types es), count_for-sort name es)

elem-insert :
    (name : Text) (a : Entry) (es : List Entry)
    → elem name (names (insert_entry a es)) ≡ ((name ≟ a.name) || elem name (names es))
unfolding insert_entry
elem-insert name a [] = refl
elem-insert name a (b ∷ es) = ground (arith, elem-insert name a es)

elem-sort :
    (name : Text) (es : List Entry) → elem name (names (sort_types es)) ≡ elem name (names es)
unfolding sort_types
elem-sort name [] = refl
elem-sort name (a ∷ es) = ground (arith, elem-insert name a (sort_types es), elem-sort name es)

insert-IsNodup :
    (a : Entry) (es : List Entry)
    → elem a.name (names es) ≡ false
    → IsNodup (names es)
    → IsNodup (names (insert_entry a es))
unfolding insert_entry
insert-IsNodup a [] h d = (refl, tt)
insert-IsNodup a (b ∷ es) h d = elim (Bool-cases (entry_le a b)) [
  | inl before ↦ rw before (h, d)
  | inr after ↦ rw after (
    ground (
      arith,
      elem-insert b.name a es,
      list_beq_iff b.name a.name,
      list_beq_iff a.name b.name,
      h,
      d.0,
    ),
    insert-IsNodup a es (ground (arith, h)) d.1,
  )
]

pub sort-IsNodup : (es : List Entry) → IsNodup (names es) → IsNodup (names (sort_types es))
unfolding sort_types
sort-IsNodup [] d = tt
sort-IsNodup (a ∷ es) d =
    insert-IsNodup a (sort_types es) (ground (arith, elem-sort a.name es, d.0))
      (sort-IsNodup es d.1)
