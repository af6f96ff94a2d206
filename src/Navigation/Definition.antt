-- ===== src/Navigation/Definition.antt =====
-- src/cpp_mcp/tools/get_definition.py: where the symbol at a position is defined.
use cpp_mcp.Base.{ℕ, Text, Option, none, some, Bool, true, false, ℤ}
use cpp_mcp.Errors.{Result, ok, ◌>>=◌}
use cpp_mcp.Positions.{UnitView, cursor_at}
use cpp_mcp.CompileDb.{FlagsSource}
use cpp_mcp.Cache.{TuCache}
use cpp_mcp.Navigation.Parsed.{Environment, Request, Parsed, on_unit}

-- The cursor of a definition: its location, whose file may be missing, and its USR.
pub record Definition : Type 0 where
  pub file : Option Text
  pub line : ℕ
  pub column : ℕ
  pub usr : Text

-- The cursor at a position: its USR and `get_definition()`.
pub record Symbol : Type 0 where
  pub usr : Text
  pub definition : Option Definition

-- The files: what the two reads of `cursor_at` give.
pub record Reads : Type 0 where
  pub first : Text → Option Text
  pub second : Text → Option Text

pub record Answer : Type 0 where
  pub definition_found : Bool
  pub file : Option Text
  pub line : Option ℕ
  pub col : Option ℕ
  pub usr : Text
  pub flags_source : FlagsSource
  pub cache_hit : Bool

unfoldable pub not_found : {TU : Type 0} → Text → Parsed TU → Answer
not_found usr unit = record {
  definition_found = false;
  file = none;
  line = none;
  col = none;
  usr = usr;
  flags_source = unit.flags_source;
  cache_hit = unit.cache_hit;
}

unfoldable pub found_in : {TU : Type 0} → Text → Definition → Parsed TU → Answer
found_in file d unit = record {
  definition_found = true;
  file = some file;
  line = some d.line;
  col = some d.column;
  usr = d.usr;
  flags_source = unit.flags_source;
  cache_hit = unit.cache_hit;
}

-- A definition without a file counts as none.
unfoldable pub answer_of : {TU : Type 0} → Symbol → Parsed TU → Answer
unfolding not_found found_in
answer_of symbol unit = elim symbol.definition [
  | none ↦ not_found symbol.usr unit
  | some d ↦ elim d.file [ none ↦ not_found symbol.usr unit | some file ↦ found_in file d unit ]
]

unfoldable pub definition_of : Reads → ℤ → ℤ → Parsed (UnitView Symbol) → Result Answer
unfolding answer_of
definition_of reads line col unit = do
  symbol ← cursor_at unit.tu (reads.first unit.file) (reads.second unit.file) line col
  ok (answer_of symbol unit)

unfoldable pub do_get_definition :
    Environment (UnitView Symbol)
    → Reads
    → Request
    → ℤ
    → ℤ
    → TuCache (UnitView Symbol)
    → TuCache (UnitView Symbol) × Result Answer
unfolding on_unit definition_of
do_get_definition env reads request line col = on_unit env request 0 (definition_of reads line col)
