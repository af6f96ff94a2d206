-- ===== src/Navigation/Macros/First.antt =====
-- Which definitions `_collect_macros` of src/cpp_mcp/tools/get_preprocessor_state.py lists.
use cpp_mcp.Base.{
  Text, List, [], ◌∷◌, map, elem, Option, none, some, ◌≟◌, nat_eq, list_eq, list_beq_iff,
  if◌then◌else◌, ◌≡◌, arith, inl, inr, Option-cases, Bool-cases,
}
use cpp_mcp.OrderedDict.{get, IsDistinct}
use cpp_mcp.Navigation.Tree.{Tree, preorder}
use cpp_mcp.Navigation.Macros.{Cursor, Macro, macro_of, macros_from, collect_macros}

-- The macros by their names.
abbrev pub named : List Macro → List (Text × Macro)
named = map (λ (m : Macro). (m.name, m))

abbrev of_name : Text → Option Macro → Option Macro → Option Macro
of_name name none later = later
of_name name (some m) later = if m.name ≟ name then some m else later

-- The first definition of a name.
unfoldable pub first_definition : Text → List Cursor → Option Macro
first_definition name [] = none
first_definition name (c ∷ cursors) = of_name name (macro_of c) (first_definition name cursors)

get-macros_from :
    (name : Text) (seen : List Text) (cursors : List Cursor)
    → get name (named (macros_from seen cursors))
      ≡ (if elem name seen then none else first_definition name cursors)
unfolding macros_from first_definition get
get-macros_from name seen [] = ground arith
get-macros_from name seen (c ∷ cursors) = elim (Option-cases (macro_of c)) [
  | inl nothing ↦ ground (arith, nothing, get-macros_from name seen cursors)
  | inr (m, found) ↦ ground (
    arith,
    found,
    list_beq_iff m.name name,
    list_beq_iff name m.name,
    elem_same name m.name seen,
    get-macros_from name seen cursors,
    get-macros_from name (m.name ∷ seen) cursors,
  )
]
  where
    elem_same : (p q : Text) (xs : List Text) → p ≡ q → elem p xs ≡ elem q xs
    elem_same p q xs h = cc

IsDistinct-macros_from :
    (seen : List Text) (cursors : List Cursor) → IsDistinct (named (macros_from seen cursors))
unfolding macros_from
IsDistinct-macros_from seen [] = tt
IsDistinct-macros_from seen (c ∷ cursors) = elim (Option-cases (macro_of c)) [
  | inl nothing ↦ rw (nothing, macros_from) (IsDistinct-macros_from seen cursors)
  | inr (m, found) ↦ elim (Bool-cases (elem m.name seen)) [
    | inl old ↦ rw (found, macros_from) (rw old (IsDistinct-macros_from seen cursors))
    | inr new ↦
        rw (found, macros_from)
          (rw new (
            ground
                (arith, get-macros_from m.name (m.name ∷ seen) cursors, list_beq_iff m.name m.name),
            IsDistinct-macros_from (m.name ∷ seen) cursors,
          ))
  ]
]

-- No name is listed twice, and a name is listed exactly when a cursor of the unit, at any depth,
-- defines it as a macro; what is listed is its first definition in the order of the walk, whatever
-- definitions of the name follow.
pub collect_macros_lem :
    (tu : Tree Cursor)
    → IsDistinct (named (collect_macros tu))
      × ((name : Text) → get name (named (collect_macros tu)) ≡ first_definition name (preorder tu))
unfolding collect_macros
collect_macros_lem tu =
    (IsDistinct-macros_from [] (preorder tu), λ name. get-macros_from name [] (preorder tu))
