-- ===== src/Exporter/Records.antt =====
-- The records that the exporter hands to a driver (`NodeRecord` and `EdgeRecord` of
-- src/cpp_mcp/graphdb/driver.py, with the labels of src/cpp_mcp/graphdb/schema.py), and the lists and the
-- set that the walk of src/cpp_mcp/graphdb/exporter.py fills.
use cpp_mcp.Base.{ℕ, Text, String, List, [], ◌∷◌, ◌++◌, Option, Bool, map}
use cpp_mcp.Exporter.Variables.{NodeType, AccessSpecifier, StorageValue}

pub data EdgeLabel : Type 0 where
  defines declares calls inherits references includes member_of : EdgeLabel
  returns has_param of_type points_to refers_to : EdgeLabel

pub record TypeProps : Type 0 where
  pub spelling : Text
  pub is_const : Bool
  pub is_volatile : Bool
  pub is_pointer : Bool
  pub is_reference : Bool
  pub is_lvalue_reference : Bool
  pub is_rvalue_reference : Bool
  pub kind : String

pub record FileProps : Type 0 where
  pub path : Text
  pub spelling : Text
  pub schema_version : Text

pub record VariableProps : Type 0 where
  pub is_const : Bool
  pub is_constexpr : Bool
  pub is_static : Bool
  pub storage_class : StorageValue

pub data RefQualifier : Type 0 where
  no_ref lvalue_ref rvalue_ref : RefQualifier

-- `cv_qualifiers` is joined from the two words that it can hold.
pub record FunctionProps : Type 0 where
  pub signature : Text
  pub is_constexpr : Bool
  pub is_noexcept : Bool
  pub is_deleted : Bool
  pub is_defaulted : Bool
  pub cv_qualifiers : Text
  pub ref_qualifier : RefQualifier

pub data RecordKind : Type 0 where
  no_record class struct union : RecordKind

pub record ClassProps : Type 0 where
  pub is_final : Bool
  pub is_abstract : Bool
  pub record_kind : RecordKind

pub record SymbolProps : Type 0 where
  pub spelling : Text
  pub type : Text
  pub file : Text
  pub line : ℕ
  pub col : ℕ
  pub variable : Option VariableProps
  pub function : Option FunctionProps
  pub class_props : Option ClassProps

pub record ParameterProps : Type 0 where
  pub spelling : Text
  pub name : Text
  pub index : ℕ
  pub default_value : Text
  pub file : Text
  pub line : ℕ
  pub col : ℕ

pub data Props : Type 0 where
  file_props : FileProps → Props
  symbol_props : SymbolProps → Props
  type_props : TypeProps → Props
  parameter_props : ParameterProps → Props

pub data EdgeProps : Type 0 where
  no_props : EdgeProps
  access : AccessSpecifier → EdgeProps
  index : ℕ → EdgeProps

pub record NodeRecord : Type 0 where
  pub label : NodeType
  pub usr : Text
  pub props : Props

pub record EdgeRecord : Type 0 where
  pub source_usr : Text
  pub target_usr : Text
  pub edge_type : EdgeLabel
  pub props : EdgeProps

-- `nodes`, `edges` and `seen_usrs`, which the calls of the walk share.
pub record Graph : Type 0 where
  pub nodes : List NodeRecord
  pub edges : List EdgeRecord
  pub seen : List Text

-- `seen_usrs.add(usr)` and `nodes.append(...)`
unfoldable pub add_node : NodeRecord → Graph → Graph
add_node n g = record g { nodes = g.nodes ++ n ∷ []; seen = n.usr ∷ g.seen }

-- `edges.append(...)`
unfoldable pub add_edge : EdgeRecord → Graph → Graph
add_edge e g = record g { edges = g.edges ++ e ∷ [] }

abbrev pub plain : Text → EdgeLabel → Text → EdgeRecord
plain source label target = record {
  source_usr = source;
  target_usr = target;
  edge_type = label;
  props = no_props;
}

abbrev pub usrs : List NodeRecord → List Text
usrs nodes = map (λ (n : NodeRecord). n.usr) nodes
