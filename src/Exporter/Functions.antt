-- ===== src/Exporter/Functions.antt =====
-- The properties of functions, classes and parameters (src/cpp_mcp/graphdb/exporter.py).
use cpp_mcp.Base.{
  Text, String, List, [], ◌∷◌, ◌++◌, Option, none, some, Bool, true, false, ◌≟◌, string_eq, codes,
  elem, ℤ, pos, incz, decz, eqz, strip, if◌then◌else◌,
}
use cpp_mcp.Exporter.Variables.{Access, kind_name, says, has_token}
use cpp_mcp.Exporter.Records.{
  FunctionProps, RefQualifier, no_ref, ClassProps, RecordKind, no_record, class, struct, union,
}

-- `" ".join(parts)`
unfoldable pub join_words : List String → Text
join_words [] = []
join_words (w ∷ []) = codes w
join_words (w ∷ v ∷ ws) = codes w ++ b' ' ∷ join_words (v ∷ ws)

-- The spellings that can be read.
abbrev pub spelled : List (Option String) → List String
spelled [] = []
spelled (none ∷ tokens) = spelled tokens
spelled (some t ∷ tokens) = t ∷ spelled tokens

-- What follows the first `=`.
unfoldable pub after_equals : List (Option String) → List String
after_equals [] = []
after_equals (none ∷ tokens) = after_equals tokens
after_equals (some t ∷ tokens) = if t ≟ "=" then spelled tokens else after_equals tokens

unfoldable pub render_default_value : List (Option String) → Text
unfolding join_words after_equals strip
render_default_value tokens = strip (join_words (after_equals tokens))

-- The tokens after the `)` that brings the depth of the parentheses back to 0.
unfoldable pub after_parameters : ℤ → List (Option String) → Option (List (Option String))
after_parameters depth [] = none
after_parameters depth (none ∷ tokens) = after_parameters depth tokens
after_parameters depth (some t ∷ tokens) =
    let deeper = after_parameters (incz depth) tokens in
    let closed = after_parameters (decz depth) tokens in
    let further = after_parameters depth tokens in
    if t ≟ "("
    then deeper
    else if t ≟ ")"
    then if eqz (decz depth) (pos 0) then some tokens else closed
    else further

abbrev terminators : List String
terminators = "{" ∷ ";" ∷ "=" ∷ []

unfoldable pub scan_volatile : List (Option String) → Bool
scan_volatile [] = false
scan_volatile (none ∷ tokens) = scan_volatile tokens
scan_volatile (some t ∷ tokens) =
    let rest = scan_volatile tokens in
    if elem t terminators
    then false
    else if t ≟ "->"
    then false
    else if t ≟ "volatile"
    then true
    else rest

unfoldable pub method_has_volatile_qualifier : List (Option String) → Bool
unfolding after_parameters scan_volatile
method_has_volatile_qualifier tokens = elim (after_parameters (pos 0) tokens) [
  | none ↦ false
  | some rest ↦ scan_volatile rest
]

pub data ExceptionSpecificationKind : Type 0 where
  basic_noexcept computed_noexcept dynamic_none other : ExceptionSpecificationKind

-- What is read from a function. `none` is an access that raises, and for `displayname` one that answers
-- None too; a method is `none` where it is missing, `some none` where it raises.
pub record FunctionAccess : Type 0 where
  pub displayname : Option Text
  pub exception_kind : Option ExceptionSpecificationKind
  pub is_deleted_method : Option (Option Bool)
  pub is_default_method : Option (Option Bool)
  pub is_const_method : Option (Option Bool)
  pub ref_qualifier : Option RefQualifier

abbrev is_noexcept : Option ExceptionSpecificationKind → Bool
is_noexcept (some basic_noexcept) = true
is_noexcept (some computed_noexcept) = true
is_noexcept (some dynamic_none) = true
is_noexcept _ = false

abbrev word : Bool → String → List String
word true w = w ∷ []
word false w = []

unfoldable pub emit_function_signature_props : Access → FunctionAccess → FunctionProps
unfolding has_token method_has_volatile_qualifier join_words
emit_function_signature_props a f =
    let is_volatile = method_has_volatile_qualifier a.tokens in
    record {
      signature = elim f.displayname [ none ↦ [] | some t ↦ t ];
      is_constexpr = if says a.is_constexpr then true else has_token "constexpr" a.tokens;
      is_noexcept = is_noexcept f.exception_kind;
      is_deleted = says f.is_deleted_method;
      is_defaulted = says f.is_default_method;
      cv_qualifiers =
          join_words (word (says f.is_const_method) "const" ++ word is_volatile "volatile");
      ref_qualifier = elim f.ref_qualifier [ none ↦ no_ref | some q ↦ q ];
    }

-- The kinds of the children, `none` for one whose kind raises; the scan goes on behind it.
unfoldable pub has_final : List (Option String) → Bool
has_final [] = false
has_final (none ∷ kinds) = has_final kinds
has_final (some k ∷ kinds) =
    let rest = has_final kinds in if k ≟ "CXX_FINAL_ATTR" then true else rest

unfoldable pub record_kind_of : String → RecordKind
record_kind_of kind =
    if kind ≟ "CLASS_DECL"
    then class
    else if kind ≟ "CLASS_TEMPLATE"
    then class
    else if kind ≟ "STRUCT_DECL"
    then struct
    else if kind ≟ "UNION_DECL"
    then union
    else no_record

unfoldable pub emit_class_props : Access → Option (Option Bool) → List (Option String) → ClassProps
unfolding has_final record_kind_of
emit_class_props a is_abstract_record child_kinds = record {
  is_final = has_final child_kinds;
  is_abstract = says is_abstract_record;
  record_kind = record_kind_of (kind_name a);
}
