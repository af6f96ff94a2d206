-- ===== src/Navigation/HeaderInfo.antt =====
-- src/cpp_mcp/tools/get_header_info.py: the inclusions of a file and the symbols of its unit.
pub mod Inclusions
pub mod Orphans
use cpp_mcp.Base.{
  lower, ℕ, ◌==◌, Text, String, List, [], ◌∷◌, ◌++◌, map, keep, any, elem, add_new, contains, codes,
  Option, none, some, Bool, true, false, not, ◌&&◌, ◌||◌, ◌≟◌, Eq, nat_eq, list_eq, if◌then◌else◌,
}
use cpp_mcp.Errors.{Result, ok}
use cpp_mcp.CompileDb.{FlagsSource}
use cpp_mcp.Cache.{TuCache}
use cpp_mcp.Navigation.Tree.{Tree, Trees, node, nil, cons, preorder}
use cpp_mcp.Navigation.Parsed.{Environment, Request, Parsed, on_unit}

-- What the walks read of a cursor. The kind, the spellings and the USRs are `none` where the access
-- raises, `referenced` also where there is none. A location is taken not to raise.
pub record Cursor : Type 0 where
  pub kind : Option Text
  pub file : Option Text
  pub line : ℕ
  pub usr : Option Text
  pub spelling : Option Text
  pub displayname : Option Text
  pub referenced : Option Text

-- One item of `get_includes()`: the name of the included file, `none` where there is none or its
-- access raises, and the depth.
pub record Inclusion : Type 0 where
  pub name : Option Text
  pub depth : ℕ

-- `get_includes` gives `none` where it raises; a diagnostic is its spelling.
pub record HeaderUnit : Type 0 where
  pub tree : Tree Cursor
  pub includes : Option (List Inclusion)
  pub diagnostics : List Text

pub record Symbol : Type 0 where
  pub kind : Text
  pub name : Text
  pub usr : Text
  pub signature : Text
  pub file : Text
  pub line : ℕ

-- `_EXPORTED_KINDS`
abbrev exported_kinds : List Text
exported_kinds =
    codes "FUNCTION_DECL"
    ∷ codes "CXX_METHOD"
    ∷ codes "CONSTRUCTOR"
    ∷ codes "DESTRUCTOR"
    ∷ codes "STRUCT_DECL"
    ∷ codes "CLASS_DECL"
    ∷ codes "CLASS_TEMPLATE"
    ∷ codes "FUNCTION_TEMPLATE"
    ∷ codes "TYPEDEF_DECL"
    ∷ codes "TYPE_ALIAS_DECL"
    ∷ codes "NAMESPACE"
    ∷ codes "VAR_DECL"
    ∷ codes "ENUM_DECL"
    ∷ []

-- `_cursor_kind_name`
unfoldable pub cursor_kind_name : Cursor → Text
cursor_kind_name c = elim c.kind [ none ↦ codes "UNKNOWN" | some name ↦ name ]

abbrev or_empty : Option Text → Text
or_empty none = []
or_empty (some s) = s

-- `cursor.displayname or cursor.spelling or ""`, where an access that raises gives the empty text.
unfoldable pub signature_of : Cursor → Text
signature_of c = elim c.displayname [
  | none ↦ []
  | some name ↦ elim name [ [] ↦ or_empty c.spelling | x ∷ s ↦ x ∷ s ]
]

-- No symbol is made where the spelling raises.
unfoldable pub symbol_of : Text → Cursor → List Symbol
unfolding cursor_kind_name signature_of
symbol_of file c = elim c.spelling [
  | none ↦ []
  | some name ↦
      record {
        kind = cursor_kind_name c;
        name = name;
        usr = or_empty c.usr;
        signature = signature_of c;
        file = file;
        line = c.line;
      }
      ∷ []
]

-- The file of a cursor of an exported kind.
unfoldable pub exported_file : Cursor → Option Text
unfolding cursor_kind_name
exported_file c = elim c.file [
  | none ↦ none
  | some file ↦ if elem (cursor_kind_name c) exported_kinds then some file else none
]

-- The walk of `_collect_exported_symbols`, which goes no further below a cursor that is not exported.
unfoldable mutual
  unfolding symbol_of exported_file

  pub visit_exported : Tree Cursor → List Symbol
  visit_exported (node c children) =
      let below = visit_children children in
      elim (exported_file c) [ none ↦ [] | some file ↦ symbol_of file c ++ below ]

  pub visit_children : Trees Cursor → List Symbol
  visit_children nil = []
  visit_children (cons t ts) = visit_exported t ++ visit_children ts

abbrev is_in : Text → Cursor → Bool
is_in file c = elim c.file [ none ↦ false | some name ↦ name ≟ file ]

-- A USR that can be read and is not empty.
abbrev usr_list : Option Text → List Text
usr_list none = []
usr_list (some []) = []
usr_list (some (x ∷ s)) = (x ∷ s) ∷ []

-- The USRs of the cursors in a file, by one of their accesses, as a set.
unfoldable pub collect_usrs : (Cursor → Option Text) → Text → List Cursor → List Text
collect_usrs access file [] = []
collect_usrs access file (c ∷ cursors) =
    let rest = collect_usrs access file cursors in
    if is_in file c then usr_list (access c) ++ rest else rest

unfoldable pub collect_usrs_in_main_file : Tree Cursor → Text → List Text
unfolding collect_usrs preorder
collect_usrs_in_main_file tu main_file = collect_usrs (λ c. c.referenced) main_file (preorder tu)

unfoldable pub collect_usrs_in_file : Tree Cursor → Text → List Text
unfolding collect_usrs preorder
collect_usrs_in_file tu file_name = collect_usrs (λ c. c.usr) file_name (preorder tu)

pub record Includes : Type 0 where
  pub direct : List Text
  pub transitive : List Text

-- One round of the loop. `seen_transitive` is the set of the items of `transitive_includes`.
unfoldable pub include_file : Inclusion → Includes → Includes
unfolding add_new
include_file inc found = elim inc.name [
  | none ↦ found
  | some name ↦ record {
    direct = if inc.depth == 1 then add_new name found.direct else found.direct;
    transitive = add_new name found.transitive;
  }
]

unfoldable pub collect_includes : List Inclusion → Includes → Includes
unfolding include_file
collect_includes [] found = found
collect_includes (inc ∷ includes) found = collect_includes includes (include_file inc found)

abbrev is_quote : ℕ → Bool
is_quote c = c == 39 || c == 34

-- The text up to the next quote, if it is not empty and there is one.
unfoldable pub until_quote : Text → Text → Option Text
until_quote read [] = none
until_quote read (c ∷ s) =
    let rest = until_quote (read ++ c ∷ []) s in
    if is_quote c then (elim read [ [] ↦ none | x ∷ name ↦ some (x ∷ name) ]) else rest

-- `re.search(r"['\"]([^'\"]+)['\"]", msg)`, its group: from the first quote at which it matches.
unfoldable pub quoted : Text → Option Text
unfolding until_quote
quoted [] = none
quoted (c ∷ s) =
    let later = quoted s in
    if is_quote c then (elim (until_quote [] s) [ none ↦ later | some name ↦ some name ]) else later

-- No character outside ASCII becomes a letter that stands right beside one of these words' letters.
unfoldable pub reports_missing : Text → Bool
unfolding contains
reports_missing msg =
    contains (codes "file not found") (map lower msg)
    || contains (codes "no such file") (map lower msg)

unfoldable pub missing_name : Text → Option Text
unfolding reports_missing quoted
missing_name msg = if reports_missing msg then quoted msg else none

unfoldable pub collect_missing : List Text → List Text → List Text
unfolding missing_name add_new
collect_missing [] missing = missing
collect_missing (msg ∷ diagnostics) missing =
    collect_missing diagnostics
      (elim (missing_name msg) [ none ↦ missing | some name ↦ add_new name missing ])

-- `defined_usrs and not defined_usrs.intersection(referenced_usrs)`
unfoldable pub none_used : List Text → List Text → Bool
none_used referenced_usrs [] = false
none_used referenced_usrs (usr ∷ usrs) = not (any (λ u. elem u referenced_usrs) (usr ∷ usrs))

unfoldable pub is_orphaned : Tree Cursor → List Text → Text → Bool
unfolding collect_usrs_in_file none_used
is_orphaned tu referenced_usrs inc_path =
    none_used referenced_usrs (collect_usrs_in_file tu inc_path)

pub record Answer : Type 0 where
  pub direct_includes : List Text
  pub transitive_includes : List Text
  pub exported_symbols : List Symbol
  pub missing_includes : List Text
  pub orphaned_includes : List Text
  pub flags_source : FlagsSource
  pub cache_hit : Bool

abbrev inclusions_of : Option (List Inclusion) → List Inclusion
inclusions_of none = []
inclusions_of (some includes) = includes

unfoldable pub header_answer : Parsed HeaderUnit → Answer
unfolding collect_includes collect_missing collect_usrs_in_main_file is_orphaned visit_exported
header_answer unit =
    let found =
      collect_includes (inclusions_of unit.tu.includes) (record { direct = []; transitive = [] }) in
    let referenced_usrs = collect_usrs_in_main_file unit.tu.tree unit.file in
    record {
      direct_includes = found.direct;
      transitive_includes = found.transitive;
      exported_symbols = visit_exported unit.tu.tree;
      missing_includes = collect_missing unit.tu.diagnostics [];
      orphaned_includes = keep (is_orphaned unit.tu.tree referenced_usrs) found.direct;
      flags_source = unit.flags_source;
      cache_hit = unit.cache_hit;
    }

unfoldable pub do_get_header_info :
    Environment HeaderUnit → Request → TuCache HeaderUnit → TuCache HeaderUnit × Result Answer
unfolding on_unit header_answer
do_get_header_info env request = on_unit env request 0 (λ unit. ok (header_answer unit))
