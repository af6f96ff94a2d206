-- ===== src/Exporter/Cursor.antt =====
-- What `_walk_cursor` of src/cpp_mcp/graphdb/exporter.py reads from a cursor, the kinds it tells apart, and the
-- nodes of files.
use cpp_mcp.Base.{
  ℕ, Text, String, List, [], ◌∷◌, ◌++◌, Option, none, some, Bool, string_eq, list_eq, nat_eq, codes,
}
use cpp_mcp.Exporter.Variables.{Access, file, kind_name}
use cpp_mcp.Exporter.Records.{file_props, NodeRecord}
use cpp_mcp.Exporter.Types.{CType}
use cpp_mcp.Exporter.Functions.{FunctionAccess}

pub record Location : Type 0 where
  pub file : Text
  pub line : ℕ
  pub column : ℕ

-- A parameter. Its spelling is taken to be readable, since the loop reads it unguarded.
pub record Param : Type 0 where
  pub spelling : Text
  pub type : Option CType
  pub location : Option Location
  pub tokens : List (Option String)

-- What the walk reads from a cursor. `none` is an access that raises or answers None, an empty USR is
-- one that is missing. `referenced` and `definition` are the USR of the cursor that they answer.
pub record Details : Type 0 where
  pub accesses : Access
  pub function : FunctionAccess
  pub is_abstract_record : Option (Option Bool)
  pub usr : Option Text
  pub spelling : Option Text
  pub location : Option Location
  pub type : Option CType
  pub is_definition : Option Bool
  pub included_file : Option Text
  pub referenced : Option Text
  pub definition : Option (Option Text)
  pub result_type : Option CType
  pub arguments : List (Option Param)

mutual
  pub data Cursor : Type 0 where
    cursor : Details → Cursors → Cursor

  pub data Cursors : Type 0 where
    nil : Cursors
    cons : Cursor → Cursors → Cursors

-- The file that is exported, and what the host computes.
pub record Export : Type 0 where
  pub file_path : Text
  pub file_name : Text
  pub sha1 : Text → Text

abbrev pub file_usr : Text → Text
file_usr path = codes "file://" ++ path

abbrev pub reference_cursor_kinds : List String
reference_cursor_kinds = "DECL_REF_EXPR" ∷ "MEMBER_REF_EXPR" ∷ "TYPE_REF" ∷ []

abbrev pub function_cursor_kinds : List String
function_cursor_kinds =
    "FUNCTION_DECL" ∷ "CXX_METHOD" ∷ "CONSTRUCTOR" ∷ "DESTRUCTOR" ∷ "FUNCTION_TEMPLATE" ∷ []

abbrev pub member_parent_kinds : List String
member_parent_kinds = "CLASS_DECL" ∷ "STRUCT_DECL" ∷ "CLASS_TEMPLATE" ∷ "UNION_DECL" ∷ []

abbrev pub member_kinds : List String
member_kinds = "FIELD_DECL" ∷ "CXX_METHOD" ∷ "CONSTRUCTOR" ∷ "DESTRUCTOR" ∷ []

abbrev pub derived_kinds : List String
derived_kinds = "CLASS_DECL" ∷ "STRUCT_DECL" ∷ "CLASS_TEMPLATE" ∷ []

abbrev pub location_of : Option Location → Location
location_of none = record { file = []; line = 0; column = 0 }
location_of (some l) = l

abbrev pub kind_of : Details → String
kind_of d = kind_name d.accesses

-- The nearest symbol above, by its USR and its kind.
abbrev pub Parent : Type 0
Parent = Option (Text × String)

-- `SCHEMA_VERSION`
abbrev pub schema_version : Text
schema_version = codes "v2"

abbrev pub file_node : Text → Text → NodeRecord
file_node path spelling = record {
  label = file;
  usr = file_usr path;
  props = file_props (record { path = path; spelling = spelling; schema_version = schema_version });
}

-- The USR, if it is there and not empty.
abbrev pub known_usr : Option Text → Option Text
known_usr none = none
known_usr (some []) = none
known_usr (some (c ∷ s)) = some (c ∷ s)
