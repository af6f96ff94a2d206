-- ===== src/Drivers/Items.antt =====
-- What the drivers of src/cpp_mcp/graphdb send for a record: the names of the labels (schema.py), the
-- items of the property dicts that exporter.py builds, and `_normalise_prop` of indradb_driver.py.
use cpp_mcp.Base.{ℕ, Text, String, List, [], ◌∷◌, ◌++◌, Option, none, some, Bool, codes, string_eq}
use cpp_mcp.OrderedDict.{set_item}
use cpp_mcp.Exporter.Variables
use cpp_mcp.Exporter.Variables.{
  NodeType, AccessSpecifier, StorageValue, none_value, thread_local_value, static_value,
  extern_value, auto_value, register_value,
}
use cpp_mcp.Exporter.Records
use cpp_mcp.Exporter.Records.{
  EdgeLabel, defines, declares, calls, inherits, references, includes, member_of, returns,
  has_param, of_type, points_to, refers_to, TypeProps, FileProps, VariableProps, RefQualifier,
  no_ref, lvalue_ref, rvalue_ref, FunctionProps, RecordKind, no_record, struct, union, ClassProps,
  SymbolProps, ParameterProps, Props, file_props, symbol_props, type_props, parameter_props,
  EdgeProps, no_props, access, index, NodeRecord, EdgeRecord,
}

-- The labels as they are stored.
unfoldable pub label_name : NodeType → String
label_name Variables.file = "File"
label_name Variables.namespace = "Namespace"
label_name Variables.class = "Class"
label_name Variables.function = "Function"
label_name Variables.variable = "Variable"
label_name Variables.field = "Field"
label_name Variables.global_variable = "GlobalVariable"
label_name Variables.macro = "Macro"
label_name Variables.type_alias = "TypeAlias"
label_name Variables.type = "Type"
label_name Variables.parameter = "Parameter"

unfoldable pub edge_name : EdgeLabel → String
edge_name defines = "DEFINES"
edge_name declares = "DECLARES"
edge_name calls = "CALLS"
edge_name inherits = "INHERITS"
edge_name references = "REFERENCES"
edge_name includes = "INCLUDES"
edge_name member_of = "MEMBER_OF"
edge_name returns = "RETURNS"
edge_name has_param = "HAS_PARAM"
edge_name of_type = "OF_TYPE"
edge_name points_to = "POINTS_TO"
edge_name refers_to = "REFERS_TO"

-- `_SCALAR`, without the floats, which no property has.
pub data Scalar : Type 0 where
  null : Scalar
  flag : Bool → Scalar
  number : ℕ → Scalar
  text : Text → Scalar

-- A value that is no scalar: what `json.dumps` answers, if it does not raise, and its `repr`.
pub data Value : Type 0 where
  scalar : Scalar → Value
  structured : Option Text → Text → Value

unfoldable pub normalise_prop : Value → Scalar
normalise_prop (scalar v) = v
normalise_prop (structured (some dumped) shown) = text dumped
normalise_prop (structured none shown) = text shown

abbrev pub Item : Type 0
Item = String × Value

abbrev flag_item : String → Bool → Item
flag_item key b = (key, scalar (flag b))

abbrev number_item : String → ℕ → Item
number_item key n = (key, scalar (number n))

abbrev pub text_item : String → Text → Item
text_item key t = (key, scalar (text t))

abbrev storage_name : StorageValue → String
storage_name none_value = "none"
storage_name thread_local_value = "thread_local"
storage_name static_value = "static"
storage_name extern_value = "extern"
storage_name auto_value = "auto"
storage_name register_value = "register"

abbrev access_name : AccessSpecifier → String
access_name Variables.public = "public"
access_name Variables.protected = "protected"
access_name Variables.private = "private"
access_name Variables.invalid = "invalid"

abbrev ref_name : RefQualifier → String
ref_name no_ref = ""
ref_name lvalue_ref = "&"
ref_name rvalue_ref = "&&"

abbrev record_name : RecordKind → String
record_name no_record = ""
record_name Records.class = "class"
record_name struct = "struct"
record_name union = "union"

abbrev variable_items : Option VariableProps → List Item
variable_items none = []
variable_items (some p) =
    flag_item "is_const" p.is_const
    ∷ flag_item "is_constexpr" p.is_constexpr
    ∷ flag_item "is_static" p.is_static
    ∷ text_item "storage_class" (codes (storage_name p.storage_class))
    ∷ []

abbrev function_items : Option FunctionProps → List Item
function_items none = []
function_items (some p) =
    text_item "signature" p.signature
    ∷ flag_item "is_constexpr" p.is_constexpr
    ∷ flag_item "is_noexcept" p.is_noexcept
    ∷ flag_item "is_deleted" p.is_deleted
    ∷ flag_item "is_defaulted" p.is_defaulted
    ∷ text_item "cv_qualifiers" p.cv_qualifiers
    ∷ text_item "ref_qualifier" (codes (ref_name p.ref_qualifier))
    ∷ []

abbrev class_items : Option ClassProps → List Item
class_items none = []
class_items (some p) =
    flag_item "is_final" p.is_final
    ∷ flag_item "is_abstract" p.is_abstract
    ∷ text_item "record_kind" (codes (record_name p.record_kind))
    ∷ []

-- The property dict of a node, in its order.
unfoldable pub node_items : Props → List Item
node_items (file_props p) =
    text_item "path" p.path
    ∷ text_item "spelling" p.spelling
    ∷ text_item "schema_version" p.schema_version
    ∷ []
node_items (symbol_props p) =
    (text_item "spelling" p.spelling
      ∷ text_item "type" p.type
      ∷ text_item "file" p.file
      ∷ number_item "line" p.line
      ∷ number_item "col" p.col
      ∷ [])
    ++ variable_items p.variable
    ++ function_items p.function
    ++ class_items p.class_props
node_items (type_props p) =
    text_item "spelling" p.spelling
    ∷ flag_item "is_const" p.is_const
    ∷ flag_item "is_volatile" p.is_volatile
    ∷ flag_item "is_pointer" p.is_pointer
    ∷ flag_item "is_reference" p.is_reference
    ∷ flag_item "is_lvalue_reference" p.is_lvalue_reference
    ∷ flag_item "is_rvalue_reference" p.is_rvalue_reference
    ∷ text_item "kind" (codes p.kind)
    ∷ []
node_items (parameter_props p) =
    text_item "spelling" p.spelling
    ∷ text_item "name" p.name
    ∷ number_item "index" p.index
    ∷ text_item "default_value" p.default_value
    ∷ text_item "file" p.file
    ∷ number_item "line" p.line
    ∷ number_item "col" p.col
    ∷ []

unfoldable pub edge_items : EdgeProps → List Item
edge_items no_props = []
edge_items (access a) = text_item "access" (codes (access_name a)) ∷ []
edge_items (index n) = number_item "index" n ∷ []

-- `dict(rec["props"])` with `props["usr"] = usr`
unfoldable pub props_with_usr : NodeRecord → List Item
unfolding node_items set_item
props_with_usr n = set_item "usr" (scalar (text n.usr)) (node_items n.props)
