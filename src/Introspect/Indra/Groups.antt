-- ===== src/Introspect/Indra/Groups.antt =====
-- What the grouping by type in `describe` of src/cpp_mcp/graphdb/schema_introspector.py keeps.
use mathlib.Core.List.{append_assoc, append-nil}
use cpp_mcp.Base.{
  ℕ, ◌+◌, Text, List, [], ◌∷◌, ◌++◌, map, length, length-append, elem, IsNodup, ◌≟◌, list_eq,
  nat_eq, list_beq_iff, ◌||◌, if◌then◌else◌, ◌≡◌, refl, arith, inl, inr, Bool-cases,
}
use cpp_mcp.Query.Indra.Fetch.{flatten_results}
use cpp_mcp.Introspect.Indra.{add_to_group, group_batch, group_batches}

module _ {A : Type 0} where
  abbrev pub keys : List (Text × List A) → List Text
  keys = map (λ (g : Text × List A). g.0)

  -- The items in the groups of a name, and in all groups.
  unfoldable pub group_size : Text → List (Text × List A) → ℕ
  group_size name [] = 0
  group_size name ((s, items) ∷ groups) =
      (if s ≟ name then length items else 0) + group_size name groups

  unfoldable pub all_size : List (Text × List A) → ℕ
  all_size [] = 0
  all_size ((s, items) ∷ groups) = length items + all_size groups

  add-group_size :
      (name t : Text) (item : A) (groups : List (Text × List A))
      → group_size name (add_to_group t item groups)
        ≡ group_size name groups + (if t ≟ name then 1 else 0)
  unfolding add_to_group group_size
  add-group_size name t item [] = ground arith
  add-group_size name t item ((s, items) ∷ groups) = ground (
    arith,
    list_beq_iff s t,
    same_test name s t,
    length-append items (item ∷ []),
    add-group_size name t item groups,
  )
    where
      same_test : (name s t : Text) → s ≡ t → (s ≟ name) ≡ (t ≟ name)
      same_test name s t h = cc

  add-all_size :
      (t : Text) (item : A) (groups : List (Text × List A))
      → all_size (add_to_group t item groups) ≡ all_size groups + 1
  unfolding add_to_group all_size
  add-all_size t item [] = refl
  add-all_size t item ((s, items) ∷ groups) =
      ground (arith, length-append items (item ∷ []), add-all_size t item groups)

  elem-add :
      (k t : Text) (item : A) (groups : List (Text × List A))
      → elem k (keys (add_to_group t item groups)) ≡ (elem k (keys groups) || (k ≟ t))
  unfolding add_to_group
  elem-add k t item [] = ground arith
  elem-add k t item ((s, items) ∷ groups) =
      ground (arith, elem-add k t item groups, list_beq_iff s t, list_beq_iff k t, list_beq_iff k s)

  add-IsNodup :
      (t : Text) (item : A) (groups : List (Text × List A))
      → IsNodup (keys groups)
      → IsNodup (keys (add_to_group t item groups))
  unfolding add_to_group
  add-IsNodup t item [] d = (refl, tt)
  add-IsNodup t item ((s, items) ∷ groups) d = elim (Bool-cases (s ≟ t)) [
    | inl same ↦ rw same d
    | inr other ↦
        rw other
          (ground (arith, elem-add s t item groups, other, d.0), add-IsNodup t item groups d.1)
  ]

module _ {A : Type 0} (type_of : A → Text) where
  -- How many items are of a type.
  unfoldable pub of_type_count : Text → List A → ℕ
  of_type_count name [] = 0
  of_type_count name (item ∷ items) =
      (if type_of item ≟ name then 1 else 0) + of_type_count name items

  of_type_count-append :
      (name : Text) (xs ys : List A)
      → of_type_count name (xs ++ ys) ≡ of_type_count name xs + of_type_count name ys
  unfolding of_type_count
  of_type_count-append name [] ys = omega arith
  of_type_count-append name (x ∷ xs) ys = omega (arith, of_type_count-append name xs ys)

  -- The groups hold the items, each in the group of its type, and no type has two groups.
  pub record Groups (items : List A) (groups : List (Text × List A)) : Type 0 where
    pub sizes : (name : Text) → group_size name groups ≡ of_type_count name items
    pub whole : all_size groups ≡ length items
    pub nodup : IsNodup (keys groups)

  Groups-add :
      (items : List A) (item : A) (groups : List (Text × List A))
      → Groups items groups
      → Groups (items ++ item ∷ []) (add_to_group (type_of item) item groups)
  unfolding of_type_count
  Groups-add items item groups v = record {
    sizes = λ name. omega (
      arith,
      add-group_size name (type_of item) item groups,
      v.sizes name,
      of_type_count-append name items (item ∷ []),
    );
    whole =
        omega (
          arith,
          add-all_size (type_of item) item groups,
          v.whole,
          length-append items (item ∷ []),
        );
    nodup = add-IsNodup (type_of item) item groups v.nodup;
  }

  Groups-batch :
      (items batch : List A) (groups : List (Text × List A))
      → Groups items groups
      → Groups (items ++ batch) (group_batch type_of batch groups)
  unfolding group_batch
  Groups-batch items [] groups v = rw (append-nil items) v
  Groups-batch items (item ∷ batch) groups v = rw (← append_assoc items (item ∷ []) batch) (
      Groups-batch (items ++ item ∷ []) batch (add_to_group (type_of item) item groups)
        (Groups-add items item groups v))

  Groups-batches :
      (items : List A) (batches : List (List A)) (groups : List (Text × List A))
      → Groups items groups
      → Groups (items ++ flatten_results batches) (group_batches type_of batches groups)
  unfolding group_batches flatten_results
  Groups-batches items [] groups v = rw (append-nil items) v
  Groups-batches items (batch ∷ batches) groups v =
      rw (← append_assoc items batch (flatten_results batches)) (
        Groups-batches (items ++ batch) batches (group_batch type_of batch groups)
          (Groups-batch items batch groups v))

  pub group_batches-Groups :
      (batches : List (List A))
      → Groups (flatten_results batches) (group_batches type_of batches [])
  group_batches-Groups batches = Groups-batches [] batches [] (record {
    sizes = λ name. unfold group_size of_type_count in refl;
    whole = unfold all_size in refl;
    nodup = tt;
  })
