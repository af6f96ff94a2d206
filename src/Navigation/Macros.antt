-- ===== src/Navigation/Macros.antt =====
-- `_collect_macros` of src/cpp_mcp/tools/get_preprocessor_state.py.
pub mod First
use cpp_mcp.Base.{
  ℕ, Text, List, [], ◌∷◌, ◌++◌, elem, codes, Option, none, some, Bool, ◌≟◌, Eq, nat_eq, list_eq,
  if◌then◌else◌,
}
use cpp_mcp.Navigation.Tree.{Tree, preorder}

-- What the walks read of a cursor: the kind, the spelling and the spellings of the tokens, `none` where
-- the access raises, the file of the location, which may be missing, and the line.
pub record Cursor : Type 0 where
  pub kind : Option Text
  pub spelling : Option Text
  pub file : Option Text
  pub line : ℕ
  pub tokens : Option (List Text)

pub record Macro : Type 0 where
  pub name : Text
  pub value : Text
  pub defined_at : Option (Text × ℕ)

-- `" ".join(...)`
unfoldable pub join_spaced : List Text → Text
join_spaced [] = []
join_spaced (w ∷ []) = w
join_spaced (w ∷ v ∷ ws) = w ++ codes " " ++ join_spaced (v ∷ ws)

-- The first token is the name.
unfoldable pub extract_macro_value : Option (List Text) → Text
unfolding join_spaced
extract_macro_value none = []
extract_macro_value (some []) = []
extract_macro_value (some (name ∷ tokens)) = join_spaced tokens

abbrev defined_at : Option Text → ℕ → Option (Text × ℕ)
defined_at none line = none
defined_at (some file) line = some (file, line)

abbrev is_macro_definition : Option Text → Bool
is_macro_definition kind = elim kind [ none ↦ Bool.false | some k ↦ k ≟ codes "MACRO_DEFINITION" ]

-- The macro of a cursor, if it is a definition with a name.
unfoldable pub macro_of : Cursor → Option Macro
unfolding extract_macro_value
macro_of c =
    if is_macro_definition c.kind
    then (elim c.spelling [
      | none ↦ none
      | some name ↦ elim name [
        | [] ↦ none
        | x ∷ s ↦ some (record {
          name = x ∷ s;
          value = extract_macro_value c.tokens;
          defined_at = defined_at c.file c.line;
        })
      ]
    ])
    else none

-- The walk, from the names that are seen.
unfoldable pub macros_from : List Text → List Cursor → List Macro
unfolding macro_of
macros_from seen [] = []
macros_from seen (c ∷ cursors) = elim (macro_of c) [
  | none ↦ macros_from seen cursors
  | some m ↦
      let known = macros_from seen cursors in
      let new = macros_from (m.name ∷ seen) cursors in if elem m.name seen then known else m ∷ new
]

unfoldable pub collect_macros : Tree Cursor → List Macro
unfolding macros_from preorder
collect_macros tu = macros_from [] (preorder tu)
