-- ===== src/Query/Tool.antt =====
-- `_do_query_graphdb` and the handler of src/cpp_mcp/tools/query_graphdb.py, `select_executor` of
-- src/cpp_mcp/graphdb/query_executor.py and `resolve_query_timeout_s` of src/cpp_mcp/core/query_config.py.
-- An executor is what its methods do; `int` and `urlparse` are parameters.
use cpp_mcp.Base.{
  ℕ, ◌≤◌, Text, List, [], ◌∷◌, Option, none, some, Bool, true, false, not, ◌||◌, list_eq, nat_eq, ℤ,
  pos, negsuc, codes, contains, elem, min, max, length, if◌then◌else◌, ◌≡◌, inl, inr, arith,
}
use cpp_mcp.Errors.{
  ExceptionType, Result, ok, raise, raise_if, ◌>>=◌, ◌>>◌, Result-cases, invalid_argument_error,
  db_unreachable_error, dependency_missing_error, query_timeout_error,
}
use cpp_mcp.Query.Neo4j.{QueryResult}

-- `max(low, min(high, v))`, for natural bounds.
unfoldable pub clamp : ℕ → ℕ → ℤ → ℕ
clamp low high (pos v) = max low (min high v)
clamp low high (negsuc v) = low

-- `int(raw)`, `none` where it raises ValueError; the variable of the environment may be unset.
unfoldable pub resolve_query_timeout_s : (Text → Option ℤ) → Option Text → ℕ
unfolding clamp
resolve_query_timeout_s to_int raw =
    let read = to_int (elim raw [ none ↦ codes "30" | some text ↦ text ]) in
    clamp 1 120 (elim read [ none ↦ pos 30 | some v ↦ v ])

pub data Backend : Type 0 where
  neo4j indradb : Backend

abbrev neo4j_schemes : List Text
neo4j_schemes =
    codes "bolt"
    ∷ codes "bolt+s"
    ∷ codes "bolt+ssc"
    ∷ codes "neo4j"
    ∷ codes "neo4j+s"
    ∷ codes "neo4j+ssc"
    ∷ []

abbrev indradb_schemes : List Text
indradb_schemes = codes "indradb" ∷ codes "grpc" ∷ codes "indradb+grpc" ∷ []

abbrev pub is_empty : Text → Bool
is_empty [] = true
is_empty (c ∷ s) = false

-- `urlparse(db_uri).scheme` is a parameter.
unfoldable pub select_executor : (Text → Text) → Text → Result Backend
unfolding contains
select_executor scheme_of db_uri =
    let scheme = scheme_of db_uri in
    if is_empty db_uri || not (contains (codes "://") db_uri)
    then raise invalid_argument_error
    else if elem scheme neo4j_schemes
    then ok neo4j
    else if elem scheme indradb_schemes
    then ok indradb
    else raise invalid_argument_error

-- An executor of a backend: how `connect` ends for a URI, and `execute` for a query, a row limit
-- and a time limit once it is connected.
pub record Executor (Row : Type 0) : Type 0 where
  pub connect : Text → Result (Unit {0})
  pub execute : Text → ℕ → ℕ → Result (QueryResult Row)

-- What a call does with its executor.
pub data Event : Type 0 where
  connected executed closed : Event

pub record Reply (Row : Type 0) : Type 0 where
  pub rows : List Row
  pub backend : Backend
  pub ms : ℕ
  pub rows_returned : ℕ
  pub truncated : Bool
  pub request_id : Text

-- The exceptions of `connect` that pass as they are.
unfoldable pub connect_error : ExceptionType → ExceptionType
connect_error dependency_missing_error = dependency_missing_error
connect_error e = db_unreachable_error

unfoldable pub reply_of : {Row : Type 0} → Backend → Text → QueryResult Row → Reply Row
reply_of backend request_id result = record {
  rows = result.rows;
  backend = backend;
  ms = result.ms;
  rows_returned = result.rows_returned;
  truncated = result.truncated;
  request_id = request_id;
}

module _ {Row : Type 0} (scheme_of : Text → Text) (executors : Backend → Executor Row) where
  -- The executor is closed whether `execute` returns or raises; what `close` raises is suppressed.
  unfoldable pub use_executor :
      Backend → Text → Text → ℕ → Text → ℕ → List Event × Result (Reply Row)
  unfolding connect_error reply_of
  use_executor backend db_uri query row_limit request_id timeout_s =
      let executor = executors backend in
      elim (executor.connect db_uri) [
        | raise e ↦ ([], raise (connect_error e))
        | ok _ ↦ (
          connected ∷ executed ∷ closed ∷ [],
          executor.execute query row_limit timeout_s >>= (λ r. ok (reply_of backend request_id r)),
        )
      ]

  unfoldable pub do_query_graphdb : Text → Text → ℕ → Text → ℕ → List Event × Result (Reply Row)
  unfolding select_executor use_executor
  do_query_graphdb db_uri query row_limit request_id timeout_s =
      elim (select_executor scheme_of db_uri) [
        | raise e ↦ ([], raise e)
        | ok backend ↦ use_executor backend db_uri query row_limit request_id timeout_s
      ]

  -- The handler. `late` says that the future has no result in time.
  unfoldable pub query_graphdb_tool : Text → Text → ℤ → Text → ℕ → Bool → Result (Reply Row)
  unfolding clamp do_query_graphdb
  query_graphdb_tool db_uri query row_limit request_id timeout_s late = do
    raise_if (is_empty db_uri) invalid_argument_error
    raise_if (is_empty query) invalid_argument_error
    raise_if late query_timeout_error
    (do_query_graphdb db_uri query (clamp 1 500 row_limit) request_id timeout_s).1

clamp_bounds :
    (low high : ℕ) (v : ℤ) → low ≤ high → (low ≤ clamp low high v) × (clamp low high v ≤ high)
unfolding clamp
clamp_bounds low high (pos v) h = (omega arith, omega (arith, h))
clamp_bounds low high (negsuc v) h = (omega arith, h)

-- Whatever the environment says, also if it is no number, a query has between 1 and 120 seconds.
pub timeout_in_range :
    (to_int : Text → Option ℤ) (raw : Option Text)
    → (1 ≤ resolve_query_timeout_s to_int raw) × (resolve_query_timeout_s to_int raw ≤ 120)
unfolding resolve_query_timeout_s
timeout_in_range to_int raw = clamp_bounds 1 120 _ (omega arith)

-- What an executor promises: no more rows than the limit, and their number.
abbrev pub RespectsLimit : {Row : Type 0} → Executor Row → Type 0
RespectsLimit {Row} executor =
    (query : Text) (row_limit timeout_s : ℕ) (r : QueryResult Row)
    → executor.execute query row_limit timeout_s ≡ ok r
    → (r.rows_returned ≡ length r.rows) × (r.rows_returned ≤ row_limit)

module _ {Row : Type 0} (scheme_of : Text → Text) (executors : Backend → Executor Row) where
  -- With executors that respect the limit they are given, a reply of the tool has at most 500 rows
  -- and at most one if the caller asks for none or for a negative number, and it says how many.
  pub reply_rows :
      ((backend : Backend) → RespectsLimit (executors backend))
      → (db_uri query : Text) (row_limit : ℤ) (request_id : Text) (timeout_s : ℕ) (late : Bool)
        (reply : Reply Row)
      → query_graphdb_tool scheme_of executors db_uri query row_limit request_id timeout_s late
        ≡ ok reply
      → (reply.rows_returned ≡ length reply.rows)
        × (reply.rows_returned ≤ 500)
        × (reply.rows_returned ≤ clamp 1 500 row_limit)
  unfolding query_graphdb_tool do_query_graphdb use_executor reply_of
  reply_rows promise db_uri query row_limit request_id timeout_s late reply h =
      let limit = clamp 1 500 row_limit in
      elim (Result-cases (select_executor scheme_of db_uri)) [
        | inr (e, refused) ↦ absurd (ground (arith, refused, h))
        | inl (backend, chosen) ↦ elim (Result-cases ((executors backend).connect db_uri)) [
          | inr (e, failed) ↦ absurd (ground (arith, chosen, failed, h))
          | inl (u, joined) ↦
              elim (Result-cases ((executors backend).execute query limit timeout_s)) [
                | inr (e, failed) ↦ absurd (ground (arith, chosen, joined, failed, h))
                | inl (result, ran) ↦
                    let kept = promise backend query limit timeout_s result ran in
                    ground (
                      arith,
                      chosen,
                      joined,
                      ran,
                      h,
                      kept,
                      clamp_bounds 1 500 row_limit (omega arith),
                    )
              ]
        ]
      ]
