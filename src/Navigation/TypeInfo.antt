-- ===== src/Navigation/TypeInfo.antt =====
-- src/cpp_mcp/tools/get_type_info.py: the type of the symbol at a position.
use cpp_mcp.Base.{ℕ, suc, Text, Option, none, some, Bool, true, false, ℤ, pos}
use cpp_mcp.Errors.{Result, ok, ◌>>=◌}
use cpp_mcp.Positions.{UnitView, cursor_at}
use cpp_mcp.CompileDb.{FlagsSource}
use cpp_mcp.Cache.{TuCache}
use cpp_mcp.Navigation.Parsed.{Environment, Request, Parsed, on_unit}
use cpp_mcp.Navigation.Definition.{Reads}

-- `TypeKind`, as far as the tool tells kinds apart.
pub data TypeKind : Type 0 where
  pointer lvalue_reference rvalue_reference other_kind : TypeKind

-- `cursor.type`, with the spelling of its canonical type and what `is_pod` of that one answers, `none`
-- where it raises. A size or an alignment that is not known is negative.
pub record CursorType : Type 0 where
  pub spelling : Text
  pub canonical_spelling : Text
  pub size : ℤ
  pub align : ℤ
  pub is_const_qualified : Bool
  pub kind : TypeKind
  pub canonical_is_pod : Option Bool

-- `_safe_size`
unfoldable pub safe_size : ℤ → Option ℕ
safe_size (pos (suc n)) = some (suc n)
safe_size _ = none

abbrev is_reference_kind : TypeKind → Bool
is_reference_kind lvalue_reference = true
is_reference_kind rvalue_reference = true
is_reference_kind _ = false

abbrev is_pointer_kind : TypeKind → Bool
is_pointer_kind pointer = true
is_pointer_kind _ = false

abbrev or_false : Option Bool → Bool
or_false none = false
or_false (some b) = b

pub record Answer : Type 0 where
  pub display_type : Text
  pub canonical_type : Text
  pub size_bytes : Option ℕ
  pub alignment_bytes : Option ℕ
  pub is_pod : Bool
  pub is_const : Bool
  pub is_reference : Bool
  pub is_pointer : Bool
  pub flags_source : FlagsSource
  pub cache_hit : Bool

unfoldable pub type_answer : {TU : Type 0} → CursorType → Parsed TU → Answer
unfolding safe_size
type_answer t unit = record {
  display_type = t.spelling;
  canonical_type = t.canonical_spelling;
  size_bytes = safe_size t.size;
  alignment_bytes = safe_size t.align;
  is_pod = or_false t.canonical_is_pod;
  is_const = t.is_const_qualified;
  is_reference = is_reference_kind t.kind;
  is_pointer = is_pointer_kind t.kind;
  flags_source = unit.flags_source;
  cache_hit = unit.cache_hit;
}

unfoldable pub type_info_of : Reads → ℤ → ℤ → Parsed (UnitView CursorType) → Result Answer
unfolding type_answer
type_info_of reads line col unit = do
  t ← cursor_at unit.tu (reads.first unit.file) (reads.second unit.file) line col
  ok (type_answer t unit)

unfoldable pub do_get_type_info :
    Environment (UnitView CursorType)
    → Reads
    → Request
    → ℤ
    → ℤ
    → TuCache (UnitView CursorType)
    → TuCache (UnitView CursorType) × Result Answer
unfolding on_unit type_info_of
do_get_type_info env reads request line col = on_unit env request 0 (type_info_of reads line col)
