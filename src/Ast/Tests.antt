-- ===== src/Ast/Tests.antt =====
-- Runs of the walks of src/cpp_mcp/core/ast_walker.py on a small unit, and the theorems at it.
use cpp_mcp.Base.{
  ℕ, ◌+◌, ◌≤◌, String, none, some, false, [], ◌∷◌, ◌≡◌, refl, arith, pos, leb, if◌then◌else◌,
  length, take, drop, max, All,
}
use cpp_mcp.Ast.Cursor.{
  Access, Cursor, cursor, nil, cons, Range, overlaps_range, cursor_to_node, storage_class_name,
}
use cpp_mcp.Ast.Budget.{max_nodes, max_bytes, charge, exhausted}
use cpp_mcp.Ast.Serial.{dumps_length, string_length, decimal_length}
use cpp_mcp.Ast.Json
use cpp_mcp.Ast.Json.{walk_json, visit}
use cpp_mcp.Ast.Json.Linear.{visible}
use cpp_mcp.Ast.Json.Counts.{number}
use cpp_mcp.Ast.Json.Laws.{flatten_root}
use cpp_mcp.Ast.Json.Result.{walk_json_nodes}
use cpp_mcp.Ast.Graph
use cpp_mcp.Ast.Graph.{Edge, child, type_ref, call, walk_graph}
use cpp_mcp.Ast.Graph.Edges.{node_ids, ids, targets, Forward}
use cpp_mcp.Ast.Graph.Result.{walk_graph_tree, formats_agree, height}
use cpp_mcp.Ast.Diagnostics.{Stream}

abbrev access : String → ℕ → Access
access kind line = record {
  kind = some kind;
  type_spelling = none;
  usr = none;
  spelling = some "x";
  storage_class = none;
  extent = some (record {
    start = some (record { line = line; column = 1 });
    stop = some (record { line = line + 2; column = 1 });
  });
}

-- A unit with a function that calls another one, and a variable.
abbrev unit : Cursor
unit =
    cursor (record (access "TRANSLATION_UNIT" 0) { extent = none })
      (cons (cursor (access "FUNCTION_DECL" 1) (cons (cursor (access "CALL_EXPR" 2) nil) nil))
        (cons (cursor (access "VAR_DECL" 9) nil) nil))

abbrev everywhere : Range
everywhere = record { start_line = none; end_line = none }

abbrev first_lines : Range
first_lines = record { start_line = some (pos 1); end_line = some (pos 5) }

program : Unit {0}
unfolding walk_json walk_graph Json.walk_cursor Graph.walk_cursor Graph.enter Graph.add_edge
    Graph.edge_type_of visit charge exhausted dumps_length string_length decimal_length
    cursor_to_node storage_class_name overlaps_range
program = tt

-- A limit of three nodes stops the walk after the third, with both edges.
cut_off :
    ((walk_graph unit everywhere 3 10000).nodes_emitted ≡ 3)
    × ((walk_graph unit everywhere 3 10000).truncation_reason ≡ some max_nodes)
    × ((walk_graph unit everywhere 3 10000).edges
        ≡ record { source_id = 1; target_id = 2; edge_type = child }
          ∷ record { source_id = 2; target_id = 3; edge_type = call }
          ∷ [])
unfolding program
cut_off = (refl, refl, refl)

-- The text of the first node has 164 characters.
first_bytes : dumps_length (cursor_to_node (access "TRANSLATION_UNIT" 0) 1) ≡ 164
unfolding program
first_bytes = refl

walk_json_nodes_example :
    (flatten_root (walk_json unit 5 first_lines 2 10000).root
      ≡ number 0 (
          take
            (walk_json unit 5 first_lines 2 10000).nodes_emitted
            (visible unit 0 (some 5) first_lines)))
    × (length (flatten_root (walk_json unit 5 first_lines 2 10000).root)
        ≡ (walk_json unit 5 first_lines 2 10000).nodes_emitted)
    × ((walk_json unit 5 first_lines 2 10000).nodes_emitted ≤ max 1 2)
    × ((walk_json unit 5 first_lines 2 10000).truncation_reason ≡ (
        if (walk_json unit 5 first_lines 2 10000).truncated
        then some (
            if leb 2 (walk_json unit 5 first_lines 2 10000).nodes_emitted
            then max_nodes
            else max_bytes)
        else none))
walk_json_nodes_example = walk_json_nodes unit 5 first_lines 2 10000

untruncated : (walk_json unit 1 everywhere 100 10000).truncated ≡ false
unfolding program
untruncated = refl

walk_graph_tree_example :
    (node_ids (walk_graph unit everywhere 3 10000).nodes ≡ ids 3)
    × (targets (walk_graph unit everywhere 3 10000).edges ≡ drop 1 (ids 3))
    × All Forward (walk_graph unit everywhere 3 10000).edges
unfolding program
walk_graph_tree_example = walk_graph_tree unit everywhere 3 10000

shallow : height unit ≤ 2
unfolding height
shallow = omega arith

formats_agree_example :
    (flatten_root (walk_json unit 2 first_lines 2 10000).root
      ≡ (walk_graph unit first_lines 2 10000).nodes)
    × ((walk_json unit 2 first_lines 2 10000).truncated
        ≡ (walk_graph unit first_lines 2 10000).truncated)
    × ((walk_json unit 2 first_lines 2 10000).truncation_reason
        ≡ (walk_graph unit first_lines 2 10000).truncation_reason)
    × ((walk_json unit 2 first_lines 2 10000).nodes_emitted
        ≡ (walk_graph unit first_lines 2 10000).nodes_emitted)
formats_agree_example = formats_agree unit 2 first_lines 2 10000 shallow

-- An error, then a fatal diagnostic, then one that cannot be read.
abbrev stream : Stream
stream =
    some (record { severity = pos 3; spelling = "a"; file = none; line = 1; column = 1 })
    ∷ some (record { severity = pos 4; spelling = "b"; file = some "f.h"; line = 2; column = 1 })
    ∷ none
    ∷ []
