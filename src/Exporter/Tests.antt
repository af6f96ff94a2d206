-- ===== src/Exporter/Tests.antt =====
-- Variables of src/cpp_mcp/graphdb/exporter.py, and the theorems at one.
use cpp_mcp.Base.{[], ◌∷◌, none, some, false, string_eq, ◌≡◌, refl}
use cpp_mcp.OrderedDict.{get}
use cpp_mcp.Exporter.Variables.{
  Access, extern, static, invalid, public, private, global_variable, field, is_static_member,
  classify_field, classify_node, resolve_access, has_token, var_qualifiers, is_storage_static,
  storage_class_value, none_value,
}

program : Unit {0}
unfolding get is_static_member classify_field classify_node resolve_access has_token var_qualifiers
    is_storage_static storage_class_value
program = tt

-- `extern thread_local constexpr int x`, of a libclang without the newer methods.
abbrev variable : Access
variable = record {
  kind = some "VAR_DECL";
  storage_class = some extern;
  access_specifier = some invalid;
  const_qualified = some false;
  is_static_member = none;
  is_constexpr = none;
  is_thread_local = none;
  tokens = some "extern" ∷ some "thread_local" ∷ some "constexpr" ∷ some "int" ∷ none ∷ [];
}

classified :
    (classify_node variable ≡ some global_variable)
    × (classify_node (record variable { kind = some "FIELD_DECL" }) ≡ some field)
    × (classify_node (record variable { kind = some "FIELD_DECL"; storage_class = some static })
        ≡ some global_variable)
    × (classify_node (record variable { kind = none }) ≡ none)
    × (storage_class_value variable field ≡ none_value)
    × (resolve_access variable (some "STRUCT_DECL") ≡ public)
    × (resolve_access variable (some "CLASS_DECL") ≡ private)
    × (is_storage_static variable ≡ false)
unfolding program
classified = (refl, refl, refl, refl, refl, refl, refl, refl)
