-- ===== src/Navigation/References.antt =====
-- src/cpp_mcp/tools/get_references.py: the cursors of a unit that refer to a symbol.
pub mod Places
pub mod Bounds
use cpp_mcp.Base.{
  ℕ, zero, suc, ◌-◌, Text, List, [], ◌∷◌, length, take, get_elem?, elem, Option, none, some, Bool,
  ltb, strip, ℤ, ◌≟◌, Eq, nat_eq, list_eq, pair_eq, if◌then◌else◌,
}
use cpp_mcp.Errors.{Result, ok, raise, ◌>>=◌}
use cpp_mcp.Positions.{UnitView, splitlines, cursor_at}
use cpp_mcp.CompileDb.{FlagsSource}
use cpp_mcp.Cache.{TuCache}
use cpp_mcp.Navigation.Tree.{Tree, preorder}
use cpp_mcp.Navigation.Parsed.{Environment, Request, Parsed, on_unit}

-- `_MAX_REFERENCES`
abbrev pub max_references : ℕ
max_references = 1000

-- A file, a line and a column.
abbrev pub Place : Type 0
Place = Text × (ℕ × ℕ)

-- What the walk reads of a cursor: the name of its location's file, which may have none, the line and
-- the column, its USR, and the USR of `referenced`, which may be None.
pub record Cursor : Type 0 where
  pub file : Option Text
  pub line : ℕ
  pub column : ℕ
  pub usr : Text
  pub referenced : Option Text

pub record Reference : Type 0 where
  pub place : Place
  pub context_snippet : Text

-- `lines[line - 1].strip()` of a text, or the empty text out of range.
unfoldable pub stripped_line : List Text → ℕ → Text
stripped_line lines zero = []
stripped_line lines (suc i) = elim (get_elem? lines i) [ none ↦ [] | some l ↦ strip l ]

-- `read_text` of a file gives `none` where it raises OSError.
unfoldable pub context_snippet : (Text → Option Text) → Text → ℕ → Text
unfolding stripped_line
context_snippet read_text file line = elim (read_text file) [
  | none ↦ []
  | some text ↦ stripped_line (splitlines text) line
]

-- The place of a cursor that refers to the symbol and is not of the symbol itself.
unfoldable pub refers_at : Text → Cursor → Option Place
refers_at target c = elim c.file [
  | none ↦ none
  | some file ↦ if c.usr ≟ target then none else elim c.referenced [
    | none ↦ none
    | some usr ↦ if usr ≟ target then some (file, (c.line, c.column)) else none
  ]
]

abbrev pub reference_at : (Text → Option Text) → Place → Reference
reference_at read_text (file, (line, col)) = record {
  place = (file, (line, col));
  context_snippet = context_snippet read_text file line;
}

-- The loop, from the places that are seen.
unfoldable pub collect_from :
    (Text → Option Text) → Text → List Place → List Cursor → List Reference
unfolding refers_at
collect_from read_text target seen [] = []
collect_from read_text target seen (c ∷ cursors) = elim (refers_at target c) [
  | none ↦ collect_from read_text target seen cursors
  | some place ↦
      let known = collect_from read_text target seen cursors in
      let new = collect_from read_text target (place ∷ seen) cursors in
      if elem place seen then known else reference_at read_text place ∷ new
]

unfoldable pub collect_references : (Text → Option Text) → Tree Cursor → Text → List Reference
unfolding collect_from preorder
collect_references read_text tu target = collect_from read_text target [] (preorder tu)

-- A unit, by its cursors and by what `cursor_at` asks of it: a cursor at a position is its USR.
pub record SourceUnit : Type 0 where
  pub tree : Tree Cursor
  pub view : UnitView Text

-- The files: what the two reads of `cursor_at` and that of `_context_snippet` give.
pub record Files : Type 0 where
  pub first : Text → Option Text
  pub second : Text → Option Text
  pub read_text : Text → Option Text

pub record Answer : Type 0 where
  pub usr : Text
  pub references : List Reference
  pub truncated : Bool
  pub omitted_count : ℕ
  pub flags_source : FlagsSource
  pub cache_hit : Bool

-- At a limit; on ℕ the difference is `max(0, ...)`.
unfoldable pub limited : ℕ → Text → List Reference → Parsed SourceUnit → Answer
limited limit target all_refs unit = record {
  usr = target;
  references = take limit all_refs;
  truncated = ltb limit (length all_refs);
  omitted_count = length all_refs - limit;
  flags_source = unit.flags_source;
  cache_hit = unit.cache_hit;
}

unfoldable pub references_of : Files → ℤ → ℤ → Parsed SourceUnit → Result Answer
unfolding limited
references_of files line col unit = do
  target ← cursor_at unit.tu.view (files.first unit.file) (files.second unit.file) line col
  ok (limited max_references target (collect_references files.read_text unit.tu.tree target) unit)

unfoldable pub do_get_references :
    Environment SourceUnit
    → Files
    → Request
    → ℤ
    → ℤ
    → TuCache SourceUnit
    → TuCache SourceUnit × Result Answer
unfolding on_unit references_of
do_get_references env files request line col = on_unit env request 0 (references_of files line col)
