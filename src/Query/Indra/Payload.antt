-- ===== src/Query/Indra/Payload.antt =====
-- The checks on the payload of a query (src/cpp_mcp/graphdb/indradb_query_executor.py, down to
-- `_require_args`). `json.loads` gives the value; of its numbers the floats are left out.
use cpp_mcp.Base.{
  ℕ, Text, List, [], ◌∷◌, ◌++◌, Option, none, some, Bool, true, false, not, ◌&&◌, ◌||◌, ◌≟◌,
  list_eq, nat_eq, leb, ◌==◌, ℤ, pos, eqz, elem, any, if◌then◌else◌,
}
use cpp_mcp.Errors.{Result, ok, raise, raise_if, ◌>>◌, query_parse_error}

mutual
  pub data Json : Type 0 where
    null : Json
    flag : Bool → Json
    number : ℤ → Json
    text : Text → Json
    array : Jsons → Json
    object : Fields → Json

  pub data Jsons : Type 0 where
    nil : Jsons
    cons : Json → Jsons → Jsons

  -- A dict, whose keys are distinct.
  pub data Fields : Type 0 where
    blank : Fields
    entry : Text → Json → Fields → Fields

-- `d.get(key)`
unfoldable pub find : Text → Fields → Option Json
find key blank = none
find key (entry k v fields) = if k ≟ key then some v else find key fields

unfoldable pub keys : Fields → List Text
keys blank = []
keys (entry k v fields) = k ∷ keys fields

-- Python's `==` of a value and a scalar; a Boolean is a number there.
abbrev as_number : Bool → ℤ
as_number true = pos 1
as_number false = pos 0

unfoldable pub scalar_eq : Json → Json → Bool
scalar_eq null null = true
scalar_eq (flag a) (flag b) = eqz (as_number a) (as_number b)
scalar_eq (flag a) (number n) = eqz (as_number a) n
scalar_eq (number n) (flag b) = eqz n (as_number b)
scalar_eq (number n) (number k) = eqz n k
scalar_eq (text s) (text t) = s ≟ t
scalar_eq _ _ = false

abbrev is_alpha : ℕ → Bool
is_alpha c = (leb b'A' c && leb c b'Z') || (leb b'a' c && leb c b'z') || (c == b'_')

abbrev is_alnum : ℕ → Bool
is_alnum c = is_alpha c || (leb b'0' c && leb c b'9')

-- `[A-Za-z0-9_]*$`, where `$` also stands before a newline that ends the text.
unfoldable pub ident_rest : Text → Bool
ident_rest [] = true
ident_rest (c ∷ []) = is_alnum c || (c == 10)
ident_rest (c ∷ d ∷ s) = is_alnum c && ident_rest (d ∷ s)

-- `_TYPE_IDENT_RE.match(t)`
unfoldable pub is_ident : Text → Bool
unfolding ident_rest
is_ident [] = false
is_ident (c ∷ s) = is_alpha c && ident_rest s

unfoldable pub validate_t : Json → Result Text
unfolding is_ident
validate_t (text t) = if is_ident t then ok t else raise query_parse_error
validate_t _ = raise query_parse_error

-- `uuid.UUID(text)` is a parameter: its canonical text, or `none` where it raises ValueError.
unfoldable pub validate_uuid : (Text → Option Text) → Json → Result Text
validate_uuid parse_uuid (text t) = elim (parse_uuid t) [
  | none ↦ raise query_parse_error
  | some id ↦ ok id
]
validate_uuid parse_uuid _ = raise query_parse_error

unfoldable pub validate_scalar : Json → Result Json
validate_scalar (array items) = raise query_parse_error
validate_scalar (object fields) = raise query_parse_error
validate_scalar v = ok v

unfoldable pub require_args : Fields → List Text → List Text → Result (Unit {0})
unfolding keys
require_args args required optional = do
  raise_if (any (λ key. not (elem key (keys args))) required) query_parse_error
  raise_if (any (λ key. not (elem key (required ++ optional))) (keys args)) query_parse_error
  ok tt

-- `args[key]`, for a key that is there.
unfoldable pub arg : Text → Fields → Json
unfolding find
arg key args = elim (find key args) [ none ↦ null | some v ↦ v ]
