-- ===== src/Ast/Budget.antt =====
-- `_Budget` of src/cpp_mcp/core/ast_walker.py.
use cpp_mcp.Base.{
  ℕ, ◌+◌, ◌≤◌, Bool, true, false, ◌&&◌, ◌||◌, Option, none, some, ltb, leb, if◌then◌else◌, ◌≡◌, max,
  arith,
}
use cpp_mcp.Ast.Cursor.{Node}
use cpp_mcp.Ast.Serial.{dumps_length}

pub data Reason : Type 0 where
  max_nodes max_bytes : Reason

pub record Budget : Type 0 where
  pub node_limit : ℕ
  pub byte_limit : ℕ
  pub nodes_emitted : ℕ
  pub bytes_estimate : ℕ
  pub truncated : Bool
  pub truncation_reason : Option Reason

abbrev pub init : ℕ → ℕ → Budget
init nodes bytes = record {
  node_limit = nodes;
  byte_limit = bytes;
  nodes_emitted = 0;
  bytes_estimate = 0;
  truncated = false;
  truncation_reason = none;
}

-- The budget after one more node, and whether it was charged.
unfoldable pub charge : Node → Budget → Budget × Bool
charge node b =
    let nodes = b.nodes_emitted + 1 in
    let bytes = b.bytes_estimate + dumps_length node in
    let charged = record b { nodes_emitted = nodes; bytes_estimate = bytes } in
    if b.truncated
    then (b, false)
    else if leb b.node_limit nodes
    then (record charged { truncated = true; truncation_reason = some max_nodes }, true)
    else if leb b.byte_limit bytes
    then (record charged { truncated = true; truncation_reason = some max_bytes }, true)
    else (charged, true)

unfoldable pub exhausted : Budget → Bool
exhausted b = b.truncated && ltb 0 b.nodes_emitted

-- What the counters and the flag say of each other, between two nodes.
pub record IsMetered (b : Budget) : Type 0 where
  pub within : b.nodes_emitted ≤ max 1 b.node_limit
  pub flag : b.truncated ≡ (
      ltb 0 b.nodes_emitted
      && (leb b.node_limit b.nodes_emitted || leb b.byte_limit b.bytes_estimate))
  pub reason : b.truncation_reason ≡ (
      if b.truncated
      then some (if leb b.node_limit b.nodes_emitted then max_nodes else max_bytes)
      else none)

pub charge-IsMetered : (node : Node) (b : Budget) → IsMetered b → IsMetered (charge node b).0
unfolding charge
charge-IsMetered node b m = record {
  within = ground (arith, m.within, m.flag);
  flag = ground (arith, m.flag);
  reason = ground (arith, m.reason);
}

pub init-IsMetered : (nodes bytes : ℕ) → IsMetered (init nodes bytes)
init-IsMetered nodes bytes = ground arith

-- A budget that is not exhausted takes the next node.
pub charged_if_open :
    (node : Node) (b : Budget) → IsMetered b → exhausted b ≡ false → (charge node b).1 ≡ true
unfolding charge exhausted
charged_if_open node b m h = ground (arith, m.flag)
