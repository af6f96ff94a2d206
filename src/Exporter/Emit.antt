-- ===== src/Exporter/Emit.antt =====
-- The nodes and edges that `_walk_cursor` of src/cpp_mcp/graphdb/exporter.py adds at one cursor.
use cpp_mcp.Base.{
  ℕ, ◌+◌, Text, String, List, [], ◌∷◌, ◌++◌, Option, none, some, Bool, true, false, not, ◌&&◌, ◌||◌,
  ◌≟◌, string_eq, list_eq, nat_eq, codes, decimal, elem, if◌then◌else◌,
}
use cpp_mcp.Exporter.Variables.{
  Access, NodeType, file, function, field, global_variable, parameter, kind_name, classify_node,
  resolve_access, var_qualifiers, is_storage_static, storage_class_value,
}
use cpp_mcp.Exporter.Variables
use cpp_mcp.Exporter.Records.{
  VariableProps, symbol_props, parameter_props, access, index, NodeRecord, EdgeRecord, EdgeLabel,
  defines, declares, calls, inherits, references, includes, member_of, returns, has_param, of_type,
  Graph, add_node, add_edge, plain,
}
use cpp_mcp.Exporter.Types.{CType, ctype, or_empty, is_empty, maybe_type}
use cpp_mcp.Exporter.Functions.{
  render_default_value, emit_function_signature_props, emit_class_props,
}
use cpp_mcp.Exporter.Cursor.{
  member_parent_kinds, member_kinds, Param, Details, cursor, Cursors, nil, cons, Export, file_usr,
  function_cursor_kinds, derived_kinds, location_of, kind_of, Parent, file_node, known_usr,
}

-- An inclusion: the node of the file, if it is new, and the edge to it.
unfoldable pub include_file : Export → Details → Graph → Graph
include_file env d g = elim d.included_file [
  | none ↦ g
  | some path ↦
      let known = elem (file_usr path) g.seen in
      let g' = if known then g else add_node (file_node path path) g in
      add_edge (plain (file_usr env.file_path) includes (file_usr path)) g'
]

unfoldable pub refer : Export → Details → Option Text → Graph → Graph
refer env d enclosing g = elim (known_usr d.referenced) [
  | none ↦ g
  | some target ↦
      let source : Text = elim enclosing [ none ↦ file_usr env.file_path | some f ↦ f ] in
      add_edge (plain source references target) g
]

-- The cursor has a file, and it is another one.
unfoldable pub is_elsewhere : Export → Details → Bool
is_elsewhere env d =
    let l = location_of d.location in not (is_empty l.file) && not (l.file ≟ env.file_path)

abbrev variable_props_of : Details → NodeType → Bool → VariableProps
variable_props_of d node_type from_field =
    let qualifiers = var_qualifiers d.accesses in
    record {
      is_const = qualifiers.0;
      is_constexpr = qualifiers.1;
      is_static = from_field || is_storage_static d.accesses;
      storage_class = storage_class_value d.accesses node_type;
    }

unfoldable pub variable_props : Details → NodeType → Option VariableProps
unfolding var_qualifiers is_storage_static storage_class_value
variable_props d field = some (variable_props_of d field false)
variable_props d global_variable =
    some (variable_props_of d global_variable (kind_of d ≟ "FIELD_DECL"))
variable_props d _ = none

abbrev is_function : NodeType → Bool
is_function function = true
is_function _ = false

abbrev is_class : NodeType → Bool
is_class Variables.class = true
is_class _ = false

abbrev pub has_type : NodeType → Bool
has_type field = true
has_type global_variable = true
has_type _ = false

abbrev child_kinds : Cursors → List (Option String)
child_kinds nil = []
child_kinds (cons (cursor d children) cs) = d.accesses.kind ∷ child_kinds cs

abbrev type_spelling : Option CType → Text
type_spelling none = []
type_spelling (some (ctype a pointee)) = or_empty a.spelling

unfoldable pub symbol_node : Details → Cursors → NodeType → Text → NodeRecord
unfolding variable_props emit_function_signature_props emit_class_props
symbol_node d children node_type usr =
    let l = location_of d.location in
    record {
      label = node_type;
      usr = usr;
      props = symbol_props (record {
        spelling = or_empty d.spelling;
        type = type_spelling d.type;
        file = l.file;
        line = l.line;
        col = l.column;
        variable = variable_props d node_type;
        function =
            if is_function node_type
            then some (emit_function_signature_props d.accesses d.function)
            else none;
        class_props =
            if is_class node_type
            then some (emit_class_props d.accesses d.is_abstract_record (child_kinds children))
            else none;
      });
    }

-- The edge to a type, if it has a node.
unfoldable pub link_type : Text → EdgeLabel → Graph × Option Text → Graph
link_type usr label (g, none) = g
link_type usr label (g, some target) = add_edge (plain usr label target) g

unfoldable pub add_symbol : Export → Details → Cursors → NodeType → Text → Graph → Graph
unfolding symbol_node link_type
add_symbol env d children node_type usr g =
    let added = add_node (symbol_node d children node_type usr) g in
    if elem usr g.seen
    then g
    else if has_type node_type
    then link_type usr of_type (maybe_type env.sha1 d.type added)
    else added

abbrev pub definition_label : Option Bool → EdgeLabel
definition_label (some true) = defines
definition_label _ = declares

abbrev pub is_member : String → String → Bool
is_member parent_kind kind = elem parent_kind member_parent_kinds && elem kind member_kinds

-- The edge between the symbol and its parent, or the file.
unfoldable pub parent_edge : Export → Details → Parent → Text → EdgeRecord
parent_edge env d none usr = plain (file_usr env.file_path) (definition_label d.is_definition) usr
parent_edge env d (some (parent_usr, parent_kind)) usr =
    if is_member parent_kind (kind_of d)
    then record {
      source_usr = usr;
      target_usr = parent_usr;
      edge_type = member_of;
      props = access (resolve_access d.accesses (some parent_kind));
    }
    else plain parent_usr (definition_label d.is_definition) usr

-- The bases among the children; what `get_definition` raises ends the loop.
unfoldable pub add_bases : Text → Cursors → Graph → Graph
add_bases usr nil g = g
add_bases usr (cons (cursor d children) cs) g =
    let rest = add_bases usr cs g in
    if kind_of d ≟ "CXX_BASE_SPECIFIER"
    then elim d.definition [
      | none ↦ g
      | some base ↦ elim (known_usr base) [
        | none ↦ rest
        | some target ↦ add_bases usr cs (add_edge (plain usr inherits target) g)
      ]
    ]
    else rest

unfoldable pub add_inherits : Details → Cursors → Text → Graph → Graph
unfolding add_bases
add_inherits d children usr g =
    if elem (kind_of d) derived_kinds then add_bases usr children g else g

-- A call with a parent.
unfoldable pub add_call : Details → Parent → Graph → Graph
add_call d none g = g
add_call d (some (parent_usr, parent_kind)) g =
    if kind_of d ≟ "CALL_EXPR"
    then elim (known_usr d.referenced) [
      | none ↦ g
      | some callee ↦ add_edge (plain parent_usr calls callee) g
    ]
    else g

unfoldable pub add_returns : Export → Details → Text → Graph → Graph
unfolding link_type
add_returns env d usr g =
    if elem (kind_of d) function_cursor_kinds
    then link_type usr returns (maybe_type env.sha1 d.result_type g)
    else g

abbrev pub param_usr : Text → ℕ → Text
param_usr usr idx = usr ++ codes "#param:" ++ decimal idx

-- `spelling or f"<param#{idx}>"`
abbrev pub param_spelling : Text → ℕ → Text
param_spelling [] idx = codes "<param#" ++ decimal idx ++ codes ">"
param_spelling (c ∷ s) idx = c ∷ s

unfoldable pub param_node : Text → ℕ → Param → NodeRecord
unfolding render_default_value
param_node usr idx p =
    let l = location_of p.location in
    record {
      label = parameter;
      usr = param_usr usr idx;
      props = parameter_props (record {
        spelling = param_spelling p.spelling idx;
        name = p.spelling;
        index = idx;
        default_value = render_default_value p.tokens;
        file = l.file;
        line = l.line;
        col = l.column;
      });
    }

-- The USR is in the set before the type is created, the node comes after it.
unfoldable pub add_param : Export → Text → ℕ → Param → Graph → Graph
unfolding param_node link_type
add_param env usr idx p g =
    let name = param_usr usr idx in
    let typed = maybe_type env.sha1 p.type (record g { seen = name ∷ g.seen }) in
    let g' = record (typed.0) { nodes = typed.0.nodes ++ param_node usr idx p ∷ [] } in
    let edge : EdgeRecord = record {
      source_usr = usr;
      target_usr = name;
      edge_type = has_param;
      props = index idx;
    } in
    if elem name g.seen then g else link_type name of_type (add_edge edge g', typed.1)

-- What the enumeration raises ends the loop.
unfoldable pub add_params_from : Export → Text → ℕ → List (Option Param) → Graph → Graph
unfolding add_param
add_params_from env usr idx [] g = g
add_params_from env usr idx (none ∷ params) g = g
add_params_from env usr idx (some p ∷ params) g =
    add_params_from env usr (idx + 1) params (add_param env usr idx p g)

unfoldable pub add_params : Export → Details → Text → Graph → Graph
unfolding add_params_from
add_params env d usr g =
    if elem (kind_of d) function_cursor_kinds then add_params_from env usr 0 d.arguments g else g

-- All that a symbol of the file adds before its children.
unfoldable pub emit_symbol : Export → Details → Cursors → Parent → NodeType → Text → Graph → Graph
unfolding add_symbol parent_edge add_inherits add_call add_returns add_params
emit_symbol env d children parent node_type usr g =
    let added = add_symbol env d children node_type usr g in
    let linked = add_edge (parent_edge env d parent usr) added in
    add_params env d usr
      (add_returns env d usr (add_call d parent (add_inherits d children usr linked)))
