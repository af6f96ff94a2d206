-- ===== src/Ast/Json.antt =====
-- The JSON format of src/cpp_mcp/core/ast_walker.py, `_walk_json` and `walk_json`. The budget and the node
-- counter that the calls share are threaded through.
pub mod Linear
pub mod Counts
pub mod Laws
pub mod Result
use cpp_mcp.Base.{
  ℕ, zero, suc, ◌+◌, Option, none, some, Bool, true, false, not, leb, if◌then◌else◌, List,
}
use cpp_mcp.Ast.Cursor.{
  Access, Cursor, cursor, Cursors, Node, Range, cursor_to_node, overlaps_range,
}
use cpp_mcp.Ast.Budget
use cpp_mcp.Ast.Budget.{Budget, Reason, charge, exhausted}

mutual
  -- A node with its `truncated` mark and its `children`.
  pub data JsonNode : Type 0 where
    json : Node → Bool → JsonNodes → JsonNode

  pub data JsonNodes : Type 0 where
    nil : JsonNodes
    cons : JsonNode → JsonNodes → JsonNodes

pub record Walk : Type 0 where
  pub budget : Budget
  pub node_counter : ℕ

-- `if child_node is not None: children.append(child_node)`
abbrev pub append_some : Option JsonNode → JsonNodes → JsonNodes
append_some none rest = rest
append_some (some n) rest = cons n rest

-- `any(True for _ in cursor.get_children())`
abbrev pub children_exist : Cursors → Bool
children_exist Cursors.nil = false
children_exist (Cursors.cons c cs) = true

-- The next node of a walk: its number, the node, and the walk with it charged.
unfoldable pub visit : Access → Walk → Node × Walk × Bool
visit a w =
    let node = cursor_to_node a (w.node_counter + 1) in
    let (budget, charged) = charge node w.budget in
    (node, record { budget = budget; node_counter = w.node_counter + 1 }, charged)

unfoldable mutual
  pub walk_cursor : Cursor → ℕ → ℕ → Range → Walk → Option JsonNode × Walk
  walk_cursor (cursor a children) depth max_depth range w =
      let (node, w', charged) = visit a w in
      let below = walk_children children (depth + 1) max_depth range w' in
      if exhausted w.budget
      then (none, w)
      else if not (overlaps_range a range)
      then (none, w)
      else if not charged
      then (none, w')
      else if leb max_depth depth
      then (some (json node (children_exist children) nil), w')
      else (some (json node false below.0), below.1)

  pub walk_children : Cursors → ℕ → ℕ → Range → Walk → JsonNodes × Walk
  walk_children Cursors.nil depth max_depth range w = (nil, w)
  walk_children (Cursors.cons c cs) depth max_depth range w =
      let first = walk_cursor c depth max_depth range w in
      let rest = walk_children cs depth max_depth range first.1 in
      if exhausted w.budget then (nil, w) else (append_some first.0 rest.0, rest.1)

pub record JsonResult : Type 0 where
  pub root : Option JsonNode
  pub truncated : Bool
  pub truncation_reason : Option Reason
  pub nodes_emitted : ℕ

abbrev pub start : ℕ → ℕ → Walk
start max_nodes max_bytes = record { budget = Budget.init max_nodes max_bytes; node_counter = 0 }

unfoldable pub walk_json : Cursor → ℕ → Range → ℕ → ℕ → JsonResult
walk_json root max_depth range max_nodes max_bytes =
    let (root_node, w) = walk_cursor root 0 max_depth range (start max_nodes max_bytes) in
    record {
      root = root_node;
      truncated = w.budget.truncated;
      truncation_reason = w.budget.truncation_reason;
      nodes_emitted = w.budget.nodes_emitted;
    }
