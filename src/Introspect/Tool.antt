-- ===== src/Introspect/Tool.antt =====
-- `describe_graph_schema` of src/cpp_mcp/tools/describe_graph_schema.py and `select_introspector` of
-- src/cpp_mcp/graphdb/schema_introspector.py. An introspector is what its methods do; `int` and `urlparse` are
-- parameters.
use cpp_mcp.Base.{
  ℕ, Text, List, [], ◌∷◌, Option, none, some, Bool, not, ◌||◌, list_eq, nat_eq, ℤ, pos, codes,
  contains, elem, if◌then◌else◌,
}
use cpp_mcp.Errors.{Result, ok, raise, ◌>>=◌, invalid_argument_error, query_timeout_error}
use cpp_mcp.Query.Tool.{clamp, connect_error}
use cpp_mcp.Introspect.Indra.{Description}

pub data Backend : Type 0 where
  neo4j indradb : Backend

abbrev neo4j_schemes : List Text
neo4j_schemes =
    codes "bolt"
    ∷ codes "bolt+s"
    ∷ codes "bolt+ssc"
    ∷ codes "neo4j"
    ∷ codes "neo4j+s"
    ∷ codes "neo4j+ssc"
    ∷ []

abbrev indradb_schemes : List Text
indradb_schemes = codes "indradb" ∷ codes "grpc" ∷ codes "indradb+grpc" ∷ []

abbrev is_empty : Text → Bool
is_empty [] = Bool.true
is_empty (c ∷ s) = Bool.false

abbrev introspector_of_scheme : Text → Result Backend
introspector_of_scheme scheme =
    if elem scheme neo4j_schemes
    then ok neo4j
    else if elem scheme indradb_schemes
    then ok indradb
    else raise invalid_argument_error

unfoldable pub select_introspector : (Text → Result Text) → Text → Result Backend
unfolding contains
select_introspector scheme_of db_uri =
    if is_empty db_uri || not (contains (codes "://") db_uri)
    then raise invalid_argument_error
    else (scheme_of db_uri >>= introspector_of_scheme)

-- `_resolve_timeout_s`, with `int` and the variable of the environment.
unfoldable pub resolve_timeout_s : (Text → Option ℤ) → Option Text → ℕ
unfolding clamp
resolve_timeout_s to_int raw =
    let read = to_int (elim raw [ none ↦ codes "30" | some text ↦ text ]) in
    clamp 1 120 (elim read [ none ↦ pos 30 | some v ↦ v ])

pub record Introspector : Type 0 where
  pub connect : Text → Result (Unit {0})
  pub describe : ℕ → Result Description

-- What a call does with its introspector.
pub data Event : Type 0 where
  connected described closed : Event

pub record Answer : Type 0 where
  pub description : Description
  pub request_id : Text

module _ (scheme_of : Text → Result Text) (introspectors : Backend → Introspector) where
  -- `late` says whether the future has no result within a number of seconds.
  unfoldable pub use_introspector :
      (ℕ → Bool) → Backend → Text → ℕ → ℕ → Text → List Event × Result Answer
  unfolding connect_error
  use_introspector late backend db_uri sample timeout_s request_id =
      let introspector = introspectors backend in
      elim (introspector.connect db_uri) [
        | raise e ↦ ([], raise (connect_error e))
        | ok _ ↦ (
          connected ∷ described ∷ closed ∷ [],
          if late timeout_s then raise query_timeout_error else do
            result ← introspector.describe sample
            ok (record { description = result; request_id = request_id }),
        )
      ]

  unfoldable pub describe_graph_schema :
      (ℕ → Bool) → (Text → Option ℤ) → Option Text → Text → ℤ → Text → List Event × Result Answer
  unfolding select_introspector use_introspector clamp resolve_timeout_s
  describe_graph_schema late to_int raw_timeout db_uri sample_size request_id =
      if is_empty db_uri
      then ([], raise invalid_argument_error)
      else elim (select_introspector scheme_of db_uri) [
        | raise e ↦ ([], raise e)
        | ok backend ↦
            use_introspector late backend db_uri (clamp 10 1000 sample_size)
              (resolve_timeout_s to_int raw_timeout) request_id
      ]
