-- ===== src/Exporter/Walk.antt =====
-- `_walk_cursor` and `extract_nodes_and_edges` of src/cpp_mcp/graphdb/exporter.py: the nodes and the edges of
-- one unit. The lists and the set that the calls share are threaded through.
pub mod Closed
pub mod Steps
pub mod Symbol
pub mod Result
pub mod Sample
mod Tests
use cpp_mcp.Base.{
  ℕ, ◌+◌, Text, String, List, [], ◌∷◌, ◌++◌, Option, none, some, Bool, true, false, not, ◌&&◌, ◌||◌,
  ◌≟◌, string_eq, list_eq, nat_eq, codes, decimal, elem, any, keep, if◌then◌else◌,
}
use cpp_mcp.Exporter.Variables.{
  Access, NodeType, file, function, field, global_variable, parameter, kind_name, classify_node,
  resolve_access, var_qualifiers, is_storage_static, storage_class_value,
}
use cpp_mcp.Exporter.Variables
use cpp_mcp.Exporter.Records.{
  SymbolProps, VariableProps, FunctionProps, ClassProps, ParameterProps, FileProps, Props,
  file_props, symbol_props, parameter_props, access, index, NodeRecord, EdgeRecord, EdgeLabel,
  defines, declares, calls, inherits, references, includes, member_of, returns, has_param, of_type,
  Graph, add_node, add_edge, plain,
}
use cpp_mcp.Exporter.Types.{CType, TypeAccess, ctype, or_empty, is_empty, maybe_type}
use cpp_mcp.Exporter.Functions.{
  FunctionAccess, render_default_value, emit_function_signature_props, emit_class_props,
}
use cpp_mcp.Exporter.Cursor.{
  Location, Param, Details, Cursor, cursor, Cursors, nil, cons, Export, file_usr,
  reference_cursor_kinds, function_cursor_kinds, derived_kinds, location_of, kind_of, Parent,
  schema_version, file_node, known_usr,
}
use cpp_mcp.Exporter.Emit.{
  include_file, refer, is_elsewhere, variable_props, has_type, symbol_node, link_type, add_symbol,
  definition_label, is_member, parent_edge, add_bases, add_inherits, add_call, add_returns,
  param_usr, param_spelling, param_node, add_param, add_params_from, add_params, emit_symbol,
}

-- A cursor that is a symbol: its label and its USR.
unfoldable pub symbol_of : Details → Option (NodeType × Text)
unfolding classify_node
symbol_of d = elim (classify_node d.accesses) [
  | none ↦ none
  | some node_type ↦ elim (known_usr d.usr) [ none ↦ none | some usr ↦ some (node_type, usr) ]
]

abbrev pub next_enclosing : Details → Text → Option Text → Option Text
next_enclosing d usr enclosing =
    if elem (kind_of d) function_cursor_kinds then some usr else enclosing

unfoldable mutual
  pub walk_cursor : Export → Cursor → Parent → Option Text → Graph → Graph
  walk_cursor env (cursor d children) parent enclosing g =
      let referred = walk_children env children parent enclosing (refer env d enclosing g) in
      let below_other_file = walk_children env children none enclosing g in
      let passed_through = walk_children env children parent enclosing g in
      if kind_of d ≟ "PARM_DECL"
      then g
      else if kind_of d ≟ "INCLUSION_DIRECTIVE"
      then include_file env d g
      else if elem (kind_of d) reference_cursor_kinds
      then referred
      else if is_elsewhere env d
      then below_other_file
      else elim (symbol_of d) [
        | none ↦ passed_through
        | some (node_type, usr) ↦
            walk_children env children (some (usr, kind_of d)) (next_enclosing d usr enclosing)
              (emit_symbol env d children parent node_type usr g)
      ]

  pub walk_children : Export → Cursors → Parent → Option Text → Graph → Graph
  walk_children env nil parent enclosing g = g
  walk_children env (cons c cs) parent enclosing g =
      walk_children env cs parent enclosing (walk_cursor env c parent enclosing g)

abbrev pub is_calls : EdgeLabel → Bool
is_calls calls = true
is_calls _ = false

abbrev pub is_references : EdgeLabel → Bool
is_references references = true
is_references _ = false

abbrev same_ends : EdgeRecord → EdgeRecord → Bool
same_ends a b = (a.source_usr ≟ b.source_usr) && (a.target_usr ≟ b.target_usr)

-- A reference that doubles a call is dropped. Without calls the source keeps the list as it is.
unfoldable pub drop_doubled : List EdgeRecord → List EdgeRecord
drop_doubled edges =
    let calls_among = keep (λ (e : EdgeRecord). is_calls e.edge_type) edges in
    if any (λ (e : EdgeRecord). is_calls e.edge_type) edges
    then keep (λ e. not (is_references e.edge_type && any (same_ends e) calls_among)) edges
    else edges

abbrev pub first_graph : Export → Graph
first_graph env = record {
  nodes = file_node env.file_path env.file_name ∷ [];
  edges = [];
  seen = file_usr env.file_path ∷ [];
}

unfoldable pub extract_nodes_and_edges : Export → Cursor → List NodeRecord × List EdgeRecord
unfolding drop_doubled
extract_nodes_and_edges env c =
    let g = walk_cursor env c none none (first_graph env) in (g.nodes, drop_doubled g.edges)
