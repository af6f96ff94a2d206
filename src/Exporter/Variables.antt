-- ===== src/Exporter/Variables.antt =====
-- The classification of a cursor as a node of the graph, and the qualifiers and the storage class of a
-- variable or a field (src/cpp_mcp/graphdb/exporter.py).
use cpp_mcp.Base.{
  String, List, [], ◌∷◌, Option, none, some, Bool, true, false, not, ◌&&◌, ◌||◌, ◌≟◌, string_eq,
  elem, any, if◌then◌else◌, ◌≡◌, ◌↔◌, refl, Bool-cases, inl, inr,
}
use cpp_mcp.OrderedDict.{get}

pub data StorageClass : Type 0 where
  static extern auto register unspecified : StorageClass

pub data AccessSpecifier : Type 0 where
  public protected private invalid : AccessSpecifier

-- The labels of src/cpp_mcp/graphdb/schema.py.
pub data NodeType : Type 0 where
  file namespace class function variable field global_variable macro type_alias type : NodeType
  parameter : NodeType

-- What the exporter reads from a cursor; `none` is an access that raises. A method of newer versions
-- of libclang is `none` where it is missing, `some none` where it raises. A `none`
-- among the tokens is one whose spelling raises.
pub record Access : Type 0 where
  pub kind : Option String
  pub storage_class : Option StorageClass
  pub access_specifier : Option AccessSpecifier
  pub const_qualified : Option Bool
  pub is_static_member : Option (Option Bool)
  pub is_constexpr : Option (Option Bool)
  pub is_thread_local : Option (Option Bool)
  pub tokens : List (Option String)

abbrev pub is_static : Option StorageClass → Bool
is_static (some static) = true
is_static _ = false

unfoldable pub is_static_member : Access → Bool
is_static_member a = elim a.is_static_member [
  | none ↦ is_static a.storage_class
  | some answer ↦ elim answer [ none ↦ is_static a.storage_class | some b ↦ b ]
]

unfoldable pub classify_field : Access → NodeType
unfolding is_static_member
classify_field a = if is_static_member a then global_variable else field

-- `_KIND_TO_NODE_TYPE`
abbrev kind_to_node_type : List (String × NodeType)
kind_to_node_type =
    ("NAMESPACE", namespace)
    ∷ ("CLASS_DECL", class)
    ∷ ("STRUCT_DECL", class)
    ∷ ("CLASS_TEMPLATE", class)
    ∷ ("FUNCTION_DECL", function)
    ∷ ("CXX_METHOD", function)
    ∷ ("CONSTRUCTOR", function)
    ∷ ("DESTRUCTOR", function)
    ∷ ("FUNCTION_TEMPLATE", function)
    ∷ ("VAR_DECL", global_variable)
    ∷ ("UNION_DECL", class)
    ∷ ("PARM_DECL", parameter)
    ∷ ("MACRO_DEFINITION", macro)
    ∷ ("TYPEDEF_DECL", type_alias)
    ∷ ("TYPE_ALIAS_DECL", type_alias)
    ∷ ("TYPE_ALIAS_TEMPLATE_DECL", type_alias)
    ∷ []

abbrev pub kind_name : Access → String
kind_name a = elim a.kind [ none ↦ "" | some k ↦ k ]

unfoldable pub classify_node : Access → Option NodeType
unfolding classify_field get
classify_node a =
    if kind_name a ≟ "FIELD_DECL"
    then some (classify_field a)
    else get (kind_name a) kind_to_node_type

abbrev public_default_parent_kinds : List String
public_default_parent_kinds = "STRUCT_DECL" ∷ "UNION_DECL" ∷ []

abbrev pub default_access : Option String → AccessSpecifier
default_access none = private
default_access (some kind) = if elem kind public_default_parent_kinds then public else private

unfoldable pub resolve_access : Access → Option String → AccessSpecifier
resolve_access a parent_kind = elim a.access_specifier [
  | none ↦ default_access parent_kind
  | some spec ↦ elim spec [
    | public ↦ public
    | protected ↦ protected
    | private ↦ private
    | invalid ↦ default_access parent_kind
  ]
]

-- A callable that answers and answers yes.
abbrev pub says : Option (Option Bool) → Bool
says none = false
says (some none) = false
says (some (some b)) = b

-- The scan for a keyword, up to a token that cannot be read.
unfoldable pub has_token : String → List (Option String) → Bool
has_token keyword [] = false
has_token keyword (none ∷ tokens) = false
has_token keyword (some t ∷ tokens) = if t ≟ keyword then true else has_token keyword tokens

abbrev pub or_false : Option Bool → Bool
or_false none = false
or_false (some b) = b

-- `(is_const, is_constexpr)`
unfoldable pub var_qualifiers : Access → Bool × Bool
unfolding has_token
var_qualifiers a =
    let is_const = or_false a.const_qualified in
    let is_constexpr = if says a.is_constexpr then true else has_token "constexpr" a.tokens in
    (if is_constexpr then true else is_const, is_constexpr)

unfoldable pub is_storage_static : Access → Bool
is_storage_static a = is_static a.storage_class

-- The strings that are emitted as `storage_class`.
pub data StorageValue : Type 0 where
  none_value thread_local_value static_value extern_value auto_value register_value : StorageValue

abbrev pub storage_value : Option StorageClass → StorageValue
storage_value (some static) = static_value
storage_value (some extern) = extern_value
storage_value (some auto) = auto_value
storage_value (some register) = register_value
storage_value _ = none_value

abbrev pub is_field : NodeType → Bool
is_field field = true
is_field _ = false

unfoldable pub storage_class_value : Access → NodeType → StorageValue
unfolding has_token
storage_class_value a node_type =
    if is_field node_type
    then none_value
    else if says a.is_thread_local
    then thread_local_value
    else if has_token "thread_local" a.tokens
    then thread_local_value
    else storage_value a.storage_class

-- The tokens that the scan reads.
abbrev pub readable : List (Option String) → List String
readable [] = []
readable (none ∷ tokens) = []
readable (some t ∷ tokens) = t ∷ readable tokens

has_token_lem :
    (keyword : String) (tokens : List (Option String))
    → has_token keyword tokens ≡ any (λ t. t ≟ keyword) (readable tokens)
unfolding has_token
has_token_lem keyword [] = refl
has_token_lem keyword (none ∷ tokens) = refl
has_token_lem keyword (some t ∷ tokens) = elim (Bool-cases (t ≟ keyword)) [
  | inl e ↦ rw e refl
  | inr e ↦ rw e (has_token_lem keyword tokens)
]

if_or : (b c : Bool) → (if b then true else c) ≡ (b || c)
if_or true c = refl
if_or false c = refl

chosen :
    (f s t : Bool) (o : Option StorageClass)
    → ((if f
          then none_value
          else if s
          then thread_local_value
          else if t
          then thread_local_value
          else storage_value o)
        ≡ thread_local_value)
      ↔ ((not f && (s || t)) ≡ true)
chosen true s t o = (λ h. absurd (cc h), λ h. absurd (cc h))
chosen false true t o = (λ h. refl, λ h. refl)
chosen false false true o = (λ h. refl, λ h. refl)
chosen false false false none = (λ h. absurd (cc h), λ h. absurd (cc h))
chosen false false false (some static) = (λ h. absurd (cc h), λ h. absurd (cc h))
chosen false false false (some extern) = (λ h. absurd (cc h), λ h. absurd (cc h))
chosen false false false (some auto) = (λ h. absurd (cc h), λ h. absurd (cc h))
chosen false false false (some register) = (λ h. absurd (cc h), λ h. absurd (cc h))
chosen false false false (some unspecified) = (λ h. absurd (cc h), λ h. absurd (cc h))

-- A variable is thread-local, also beside `extern` or `static`, exactly when libclang says so or the
-- keyword is among its tokens that can be read; a field never is.
pub thread_local_first :
    (a : Access) (node_type : NodeType)
    → (storage_class_value a node_type ≡ thread_local_value) ↔ (
        (not (is_field node_type)
          && (says a.is_thread_local || any (λ t. t ≟ "thread_local") (readable a.tokens)))
        ≡ true)
unfolding storage_class_value
thread_local_first a node_type = rw (← has_token_lem "thread_local" a.tokens) (
    chosen (is_field node_type) (says a.is_thread_local) (has_token "thread_local" a.tokens)
      a.storage_class)

-- `constexpr` is reported exactly when libclang says so or the keyword is among the tokens that can
-- be read, and what is `constexpr` is `const`; without it `const` is what the type says.
pub var_qualifiers_lem :
    (a : Access)
    → ((var_qualifiers a).1
        ≡ (says a.is_constexpr || any (λ t. t ≟ "constexpr") (readable a.tokens)))
      × ((var_qualifiers a).0 ≡ ((var_qualifiers a).1 || or_false a.const_qualified))
unfolding var_qualifiers
var_qualifiers_lem a = rw (← has_token_lem "constexpr" a.tokens) (
  if_or (says a.is_constexpr) (has_token "constexpr" a.tokens),
  if_or (if says a.is_constexpr then true else has_token "constexpr" a.tokens)
      (or_false a.const_qualified),
)
