-- ===== src/Exporter/Types.antt =====
-- The nodes of types of src/cpp_mcp/graphdb/exporter.py: `_type_usr`, `_type_props` and
-- `_get_or_create_type`. A type is the tree of what its accesses answer.
use cpp_mcp.Base.{
  Text, String, [], ◌∷◌, ◌++◌, Option, none, some, Bool, true, false, ◌||◌, codes, elem, list_eq,
  nat_eq, if◌then◌else◌,
}
use cpp_mcp.Exporter.Variables.{type, or_false}
use cpp_mcp.Exporter.Records.{
  TypeProps, NodeRecord, Graph, EdgeLabel, points_to, refers_to, type_props, add_node, add_edge,
  plain,
}

pub data TypeKind : Type 0 where
  pointer lvalue_reference rvalue_reference other : TypeKind

-- `none` is an access that raises and, for the spelling, one that answers None. A kind has a name.
pub record TypeAccess : Type 0 where
  pub spelling : Option Text
  pub kind : Option (TypeKind × String)
  pub const_qualified : Option Bool
  pub volatile_qualified : Option Bool

mutual
  pub data CType : Type 0 where
    ctype : TypeAccess → Pointee → CType

  -- `get_pointee()`, which raises, answers None, or gives a type.
  pub data Pointee : Type 0 where
    raises missing : Pointee
    points : CType → Pointee

abbrev pub or_empty : Option Text → Text
or_empty none = []
or_empty (some t) = t

abbrev pub is_empty : Text → Bool
is_empty [] = true
is_empty (c ∷ s) = false

-- `hashlib.sha1(...).hexdigest()` is a parameter.
unfoldable pub type_usr : (Text → Text) → Text → Text
type_usr sha1 spelling = codes "type:" ++ sha1 spelling

abbrev is_pointer : Option (TypeKind × String) → Bool
is_pointer (some (pointer, name)) = true
is_pointer _ = false

abbrev is_lvalue : Option (TypeKind × String) → Bool
is_lvalue (some (lvalue_reference, name)) = true
is_lvalue _ = false

abbrev is_rvalue : Option (TypeKind × String) → Bool
is_rvalue (some (rvalue_reference, name)) = true
is_rvalue _ = false

unfoldable pub props_of_type : TypeAccess → TypeProps
props_of_type a = record {
  spelling = or_empty a.spelling;
  is_const = or_false a.const_qualified;
  is_volatile = or_false a.volatile_qualified;
  is_pointer = is_pointer a.kind;
  is_reference = is_lvalue a.kind || is_rvalue a.kind;
  is_lvalue_reference = is_lvalue a.kind;
  is_rvalue_reference = is_rvalue a.kind;
  kind = elim a.kind [ none ↦ "" | some k ↦ k.1 ];
}

abbrev pub type_node : (Text → Text) → TypeAccess → NodeRecord
type_node sha1 a = record {
  label = type;
  usr = type_usr sha1 (or_empty a.spelling);
  props = type_props (props_of_type a);
}

-- The edge to what a type points or refers to, if that has a node.
unfoldable pub chain_edge : Text → EdgeLabel → Graph × Option Text → Graph
chain_edge usr label (g, none) = g
chain_edge usr label (g, some target) = add_edge (plain usr label target) g

-- The pointee is asked for only below a pointer or a reference.
unfoldable pub chain : Option (TypeKind × String) → Text → Graph → Graph × Option Text → Graph
unfolding chain_edge
chain (some (pointer, name)) usr g below = chain_edge usr points_to below
chain (some (lvalue_reference, name)) usr g below = chain_edge usr refers_to below
chain (some (rvalue_reference, name)) usr g below = chain_edge usr refers_to below
chain _ usr g below = g

unfoldable mutual
  pub get_or_create_type : (Text → Text) → CType → Graph → Graph × Option Text
  get_or_create_type sha1 (ctype a pointee) g =
      let usr = type_usr sha1 (or_empty a.spelling) in
      let created = add_node (type_node sha1 a) g in
      let below = get_or_create_pointee sha1 pointee created in
      if is_empty (or_empty a.spelling)
      then (g, none)
      else if elem usr g.seen
      then (g, some usr)
      else (chain a.kind usr created below, some usr)

  pub get_or_create_pointee : (Text → Text) → Pointee → Graph → Graph × Option Text
  get_or_create_pointee sha1 raises g = (g, none)
  get_or_create_pointee sha1 missing g = (g, none)
  get_or_create_pointee sha1 (points t) g = get_or_create_type sha1 t g

-- For a type that is None, or whose access raises, nothing happens.
unfoldable pub maybe_type : (Text → Text) → Option CType → Graph → Graph × Option Text
maybe_type sha1 none g = (g, none)
maybe_type sha1 (some t) g = get_or_create_type sha1 t g
