-- ===== src/Ast/Graph.antt =====
-- The graph format of src/cpp_mcp/core/ast_walker.py, `_walk_graph` and `walk_graph`. The budget, the node
-- counter and the two lists that the calls share are threaded through.
pub mod Nodes
pub mod Edges
pub mod Result
use cpp_mcp.Base.{
  ℕ, ◌+◌, String, Option, none, some, Bool, true, false, not, ◌||◌, if◌then◌else◌, List, [], ◌∷◌,
  ◌++◌, elem, string_eq,
}
use cpp_mcp.Ast.Cursor.{
  Access, Cursor, cursor, Cursors, nil, cons, Node, Range, or_else, overlaps_range,
}
use cpp_mcp.Ast.Budget.{Budget, Reason, exhausted}
use cpp_mcp.Ast.Json.{Walk, visit, start}

pub data EdgeType : Type 0 where
  child type_ref call : EdgeType

pub record Edge : Type 0 where
  pub source_id : ℕ
  pub target_id : ℕ
  pub edge_type : EdgeType

abbrev type_ref_kinds : List String
type_ref_kinds = "TYPE_REF" ∷ "TEMPLATE_REF" ∷ "NAMESPACE_REF" ∷ "OVERLOADED_DECL_REF" ∷ []

abbrev call_kinds : List String
call_kinds = "CALL_EXPR" ∷ "CXX_METHOD" ∷ []

unfoldable pub edge_type_of : String → EdgeType
edge_type_of kind_name =
    if elem kind_name type_ref_kinds
    then type_ref
    else if elem kind_name call_kinds
    then call
    else child

pub record GraphWalk : Type 0 where
  pub walk : Walk
  pub nodes : List Node
  pub edges : List Edge

-- The edge from the parent, if there is one.
unfoldable pub add_edge : Option ℕ → ℕ → Access → List Edge → List Edge
unfolding edge_type_of
add_edge none current a edges = edges
add_edge (some parent) current a edges =
    edges
    ++ record {
      source_id = parent;
      target_id = current;
      edge_type = edge_type_of (or_else "" a.kind);
    }
      ∷ []

-- The node of a cursor, with the edge that leads to it.
unfoldable pub enter : Option ℕ → Access → GraphWalk → GraphWalk
unfolding add_edge
enter parent a g = record {
  walk = (visit a g.walk).1;
  nodes = g.nodes ++ (visit a g.walk).0 ∷ [];
  edges = add_edge parent (g.walk.node_counter + 1) a g.edges;
}

unfoldable mutual
  pub walk_cursor : Cursor → Option ℕ → Range → GraphWalk → Option ℕ × GraphWalk
  walk_cursor (cursor a children) parent range g =
      let current = g.walk.node_counter + 1 in
      let entered = enter parent a g in
      let below = walk_children children current range entered in
      if exhausted g.walk.budget
      then (none, g)
      else if not (overlaps_range a range)
      then (none, g)
      else if not (visit a g.walk).2
      then (none, record g { walk = (visit a g.walk).1 })
      else if exhausted entered.walk.budget
      then (some current, entered)
      else (some current, below)

  pub walk_children : Cursors → ℕ → Range → GraphWalk → GraphWalk
  walk_children nil parent range g = g
  walk_children (cons c cs) parent range g =
      let first = (walk_cursor c (some parent) range g).1 in
      let rest = walk_children cs parent range first in if exhausted g.walk.budget then g else rest

pub record GraphResult : Type 0 where
  pub nodes : List Node
  pub edges : List Edge
  pub truncated : Bool
  pub truncation_reason : Option Reason
  pub nodes_emitted : ℕ

abbrev pub start_graph : ℕ → ℕ → GraphWalk
start_graph max_nodes max_bytes = record {
  walk = start max_nodes max_bytes;
  nodes = [];
  edges = [];
}

unfoldable pub walk_graph : Cursor → Range → ℕ → ℕ → GraphResult
walk_graph root range max_nodes max_bytes =
    let g = (walk_cursor root none range (start_graph max_nodes max_bytes)).1 in
    record {
      nodes = g.nodes;
      edges = g.edges;
      truncated = g.walk.budget.truncated;
      truncation_reason = g.walk.budget.truncation_reason;
      nodes_emitted = g.walk.budget.nodes_emitted;
    }
