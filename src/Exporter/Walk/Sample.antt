-- ===== src/Exporter/Walk/Sample.antt =====
-- A unit of src/cpp_mcp/graphdb/exporter.py for the tests: a class with a base and a method that has a
-- parameter and calls a function.
use cpp_mcp.Base.{Text, [], ◌∷◌, none, some, true, false, String, codes}
use cpp_mcp.Exporter.Variables.{
  Access, public, classify_node, classify_field, is_static_member, resolve_access,
}
use cpp_mcp.Exporter.Records.{add_node, add_edge}
use cpp_mcp.Exporter.Types.{
  CType, ctype, points, missing, pointer, other, TypeAccess, type_usr, props_of_type, chain_edge,
  chain, get_or_create_type, maybe_type,
}
use cpp_mcp.Exporter.Functions.{FunctionAccess}
use cpp_mcp.Exporter.Cursor.{Details, Cursor, cursor, nil, cons, Export, Param}
use cpp_mcp.Exporter.Emit.{
  refer, is_elsewhere, symbol_node, add_symbol, link_type, parent_edge, add_bases, add_inherits,
  add_call, add_returns, param_node, add_param, add_params_from, add_params, emit_symbol,
  include_file,
}
use cpp_mcp.Exporter.Walk.{walk_cursor, extract_nodes_and_edges, drop_doubled, symbol_of}

abbrev accesses : String → Access
accesses kind = record {
  kind = some kind;
  storage_class = none;
  access_specifier = some public;
  const_qualified = none;
  is_static_member = none;
  is_constexpr = none;
  is_thread_local = none;
  tokens = [];
}

abbrev function : FunctionAccess
function = record {
  displayname = some (codes "f(int *)");
  exception_kind = none;
  is_deleted_method = none;
  is_default_method = none;
  is_const_method = none;
  ref_qualifier = none;
}

abbrev type_access : Text → TypeAccess
type_access spelling = record {
  spelling = some spelling;
  kind = some (pointer, "POINTER");
  const_qualified = some false;
  volatile_qualified = some false;
}

abbrev int_type : CType
int_type = ctype (record (type_access (codes "int")) { kind = some (other, "INT") }) missing

abbrev int_pointer : CType
int_pointer = ctype (type_access (codes "int *")) (points int_type)

abbrev source : Text
source = codes "/src/a.cpp"

abbrev details : String → Text → Details
details kind usr = record {
  accesses = accesses kind;
  function = function;
  is_abstract_record = none;
  usr = some usr;
  spelling = some usr;
  location = some (record { file = source; line = 1; column = 1 });
  type = some int_pointer;
  is_definition = some true;
  included_file = none;
  referenced = none;
  definition = some none;
  result_type = some int_type;
  arguments = [];
}

abbrev pub method : Text
method = codes "c:@S@D@F@f"

abbrev param : Param
param = record {
  spelling = codes "p";
  type = some int_pointer;
  location = none;
  tokens = some "int" ∷ some "*" ∷ some "p" ∷ [];
}

abbrev call : Cursor
call =
    cursor (record (details "CALL_EXPR" []) { referenced = some (codes "c:@F@g") })
      (cons
        (cursor (record (details "DECL_REF_EXPR" []) { referenced = some (codes "c:@F@g") }) nil)
        nil)

abbrev pub root : Cursor
root =
    cursor (record (details "TRANSLATION_UNIT" []) { location = none })
      (cons
        (cursor (details "CLASS_DECL" (codes "c:@S@D")) (
          cons
            (cursor
              (record (details "CXX_BASE_SPECIFIER" []) {
                definition = some (some (codes "c:@S@B"));
              })
              nil)
            (cons
              (cursor (record (details "CXX_METHOD" method) { arguments = some param ∷ [] })
                (cons call nil))
              nil)))
        nil)

abbrev pub unit : Export
unit = record { file_path = source; file_name = codes "a.cpp"; sha1 = λ s. s }

-- All that an extraction unfolds.
unfoldable pub walked : Unit {0}
unfolding extract_nodes_and_edges walk_cursor drop_doubled refer is_elsewhere symbol_of emit_symbol
    add_params add_params_from add_param param_node add_returns add_call add_inherits add_bases
    parent_edge add_symbol link_type symbol_node include_file maybe_type get_or_create_type chain
    chain_edge props_of_type type_usr add_node add_edge classify_node classify_field
    is_static_member resolve_access
walked = tt
