-- ===== src/Ast/Cursor.antt =====
-- What the walker reads from libclang's cursors, and the node that it builds from one
-- (src/cpp_mcp/core/ast_walker.py). A cursor is the tree of what its accesses answer.
use cpp_mcp.Base.{ℕ, ◌^◌, String, Option, none, some, Bool, true, ◌&&◌, ℤ, pos, lez}

pub record Location : Type 0 where
  pub line : ℕ
  pub column : ℕ

-- `cursor.extent`, when it is truthy.
pub record Extent : Type 0 where
  pub start : Option Location
  pub stop : Option Location

-- The accesses of one cursor. `none` stands for an access that raises and, for `type_spelling`,
-- `usr` and `spelling`, for an answer that is `None` or empty as well. The extent is taken not to
-- raise, since `_overlaps_range` reads it unguarded: there `none` is an answer that is false.
pub record Access : Type 0 where
  pub kind : Option String
  pub type_spelling : Option String
  pub usr : Option String
  pub spelling : Option String
  pub storage_class : Option String
  pub extent : Option Extent

mutual
  pub data Cursor : Type 0 where
    cursor : Access → Cursors → Cursor

  -- `get_children()`
  pub data Cursors : Type 0 where
    nil : Cursors
    cons : Cursor → Cursors → Cursors

pub record Node : Type 0 where
  pub id : ℕ
  pub kind : String
  pub spelling : String
  pub usr : String
  pub type_spelling : String
  pub storage_class : String
  pub start_line : ℕ
  pub start_col : ℕ
  pub end_line : ℕ
  pub end_col : ℕ

abbrev pub or_else : String → Option String → String
or_else d none = d
or_else d (some s) = s

abbrev pub start_of : Option Extent → Option Location
start_of none = none
start_of (some e) = e.start

abbrev pub stop_of : Option Extent → Option Location
stop_of none = none
stop_of (some e) = e.stop

abbrev pub line_of : Option Location → ℕ
line_of none = 0
line_of (some l) = l.line

abbrev pub column_of : Option Location → ℕ
column_of none = 0
column_of (some l) = l.column

unfoldable pub storage_class_name : Access → String
storage_class_name a = or_else "NONE" a.storage_class

unfoldable pub cursor_to_node : Access → ℕ → Node
unfolding storage_class_name
cursor_to_node a node_id = record {
  id = node_id;
  kind = or_else "UNKNOWN" a.kind;
  spelling = or_else "" a.spelling;
  usr = or_else "" a.usr;
  type_spelling = or_else "" a.type_spelling;
  storage_class = storage_class_name a;
  start_line = line_of (start_of a.extent);
  start_col = column_of (start_of a.extent);
  end_line = line_of (stop_of a.extent);
  end_col = column_of (stop_of a.extent);
}

-- The line filter: either bound may be missing, and both are any integers.
pub record Range : Type 0 where
  pub start_line : Option ℤ
  pub end_line : Option ℤ

abbrev pub lower : Option ℤ → ℤ
lower none = pos 0
lower (some l) = l

abbrev pub upper : Option ℤ → ℤ
upper none = pos (2 ^ 31)
upper (some l) = l

overlaps_extent : Extent → Range → Bool
overlaps_extent e r =
    lez (pos (line_of e.start)) (upper r.end_line)
    && lez (lower r.start_line) (pos (line_of e.stop))

overlaps_bounds : Option Extent → Range → Bool
unfolding overlaps_extent
overlaps_bounds none r = true
overlaps_bounds (some e) r = overlaps_extent e r

unfoldable pub overlaps_range : Access → Range → Bool
unfolding overlaps_bounds
overlaps_range a r = elim r.start_line [
  | none ↦ elim r.end_line [ none ↦ true | some _ ↦ overlaps_bounds a.extent r ]
  | some _ ↦ overlaps_bounds a.extent r
]
