-- ===== src/Query/Indra/Request.antt =====
-- What a query of src/cpp_mcp/graphdb/indradb_query_executor.py asks for: its verb and its arguments.
use cpp_mcp.Base.{Text, List, [], ◌∷◌, Option, none, some, list_eq, nat_eq, codes}
use cpp_mcp.OrderedDict.{get}
use cpp_mcp.Errors.{Result, ok, raise, ◌>>=◌, query_parse_error, query_unsupported_error, other}
use cpp_mcp.Query.Indra.Payload.{Json, text, array, object, Fields, blank, find}

-- `_ALLOWED_VERBS`
pub data Verb : Type 0 where
  all_vertices_verb all_edges_verb vertex_with_type edge_with_type : Verb
  vertex_with_property_equal edge_with_property_equal pipe : Verb

abbrev allowed_verbs : List (Text × Verb)
allowed_verbs =
    (codes "all_vertices", all_vertices_verb)
    ∷ (codes "all_edges", all_edges_verb)
    ∷ (codes "vertex_with_type", vertex_with_type)
    ∷ (codes "edge_with_type", edge_with_type)
    ∷ (codes "vertex_with_property_equal", vertex_with_property_equal)
    ∷ (codes "edge_with_property_equal", edge_with_property_equal)
    ∷ (codes "pipe", pipe)
    ∷ []

-- `payload.get("args", {})`
unfoldable pub args_of : Option Json → Result Fields
args_of none = ok blank
args_of (some (object args)) = ok args
args_of (some _) = raise query_parse_error

-- A list or a dict has no hash, so that the test of membership raises TypeError.
unfoldable pub verb_of : Option Json → Result Verb
unfolding get
verb_of (some (text verb)) = elim (get verb allowed_verbs) [
  | none ↦ raise query_unsupported_error
  | some v ↦ ok v
]
verb_of (some (array items)) = raise other
verb_of (some (object fields)) = raise other
verb_of _ = raise query_unsupported_error

-- The verb and the arguments of a text.
unfoldable pub parse_query : (Text → Option Json) → Text → Result (Verb × Fields)
unfolding args_of verb_of find
parse_query loads query = elim (loads query) [
  | none ↦ raise query_parse_error
  | some payload ↦ elim payload [
    | object fields ↦ do
      args ← args_of (find (codes "args") fields)
      verb ← verb_of (find (codes "query") fields)
      ok (verb, args)
    | _ ↦ raise query_parse_error
  ]
]
