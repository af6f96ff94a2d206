-- ===== src/Query/Neo4j.antt =====
-- `Neo4jQueryExecutor` of src/cpp_mcp/graphdb/neo4j_query_executor.py. The driver's answers are parameters.
pub mod Coerce
pub mod Connection
pub mod Sent
mod Tests
pub mod Rows
use cpp_mcp.Base.{
  ℕ, zero, suc, ◌+◌, ◌≤◌, Text, List, [], ◌∷◌, ◌++◌, Option, none, some, Bool, true, false, codes,
  contains, map, length, length-take, take, ltb, any, if◌then◌else◌, ◌≡◌, ◌⊎◌, inl, inr, refl, ap,
  sym, ◌∙◌, arith, Bool-cases,
}
use cpp_mcp.Errors.{
  ExceptionType, Result, ok, raise, ◌>>=◌, Result-cases, query_parse_error, query_timeout_error,
  db_unreachable_error, other,
}
use cpp_mcp.Query.Plan.{Plan, walk_plan, is_violation, operators, accepted_plan}

-- The records of a result, and the exception that ends their iteration, if one does.
pub record Stream (R : Type 0) : Type 0 where
  pub records : List R
  pub broken : Option ExceptionType

-- How a call of the driver ends: an answer, or one of the exceptions that the executor tells apart,
-- a client error with its message.
pub data Reply (A : Type 0) : Type 0 where
  answer : A → Reply A
  syntax_error : Reply A
  client_error : Text → Reply A
  service_unavailable : Reply A
  failure : ExceptionType → Reply A

-- An open session: what the database answers to the first text, up to the plan of the consumed
-- summary, and to the second one. A call has a text, parameters and a time limit.
pub record Session (P R : Type 0) : Type 0 where
  pub explain : Text → P → ℕ → Reply (Option Plan)
  pub run : Text → P → ℕ → Reply (Stream R)

pub record QueryResult (Row : Type 0) : Type 0 where
  pub rows : List Row
  pub rows_returned : ℕ
  pub truncated : Bool
  pub ms : ℕ

abbrev timed_out : Text
timed_out = codes "TimedOut"

-- `f"EXPLAIN {query}"`
abbrev pub explain_text : Text → Text
explain_text query = codes "EXPLAIN " ++ query

-- A value, unless an exception comes in its place.
abbrev pub ending {ℓ} : {A : Type ℓ} → A → Option ExceptionType → Result A
ending a none = ok a
ending a (some e) = raise e

-- The `except` clauses around EXPLAIN, and the walk over its plan.
unfoldable pub after_explain : Reply (Option Plan) → Result (Unit {0})
unfolding contains
after_explain syntax_error = raise query_parse_error
after_explain (client_error message) =
    if contains timed_out message then raise query_timeout_error else raise query_parse_error
after_explain service_unavailable = raise other
after_explain (failure e) = raise e
after_explain (answer none) = raise query_parse_error
after_explain (answer (some p)) = walk_plan p

unfoldable pub enforce_read_only : {P R : Type 0} → Session P R → Text → P → ℕ → Result (Unit {0})
unfolding after_explain
enforce_read_only session query parameters timeout_s =
    after_explain (session.explain (explain_text query) parameters timeout_s)

module _ {R Row : Type 0} (coerce_record : R → Row) where
  -- `rows.append(_coerce_record(record))`, in front of what the rest of the loop collects.
  abbrev pub put : R → List Row × Bool → Result (List Row × Bool)
  put r (rows, truncated) = ok (coerce_record r ∷ rows, truncated)

  -- `for i, record in enumerate(result)`, from index `i`, with `row_limit`.
  unfoldable pub collect : ℕ → ℕ → List R → Option ExceptionType → Result (List Row × Bool)
  collect row_limit i [] none = ok ([], false)
  collect row_limit i [] (some e) = raise e
  collect row_limit i (r ∷ records) broken =
      let rest = collect row_limit (i + 1) records broken in
      if ltb i row_limit then rest >>= put r else ok ([], true)

  unfoldable pub query_result : ℕ → List Row × Bool → QueryResult Row
  query_result ms (rows, truncated) = record {
    rows = rows;
    rows_returned = length rows;
    truncated = truncated;
    ms = ms;
  }

  -- The second phase: the `except` clauses around the query, and the rows.
  unfoldable pub after_run : ℕ → ℕ → Reply (Stream R) → Result (QueryResult Row)
  unfolding collect contains query_result
  after_run row_limit ms syntax_error = raise query_parse_error
  after_run row_limit ms (client_error message) =
      if contains timed_out message then raise query_timeout_error else raise db_unreachable_error
  after_run row_limit ms service_unavailable = raise db_unreachable_error
  after_run row_limit ms (failure e) = raise e
  after_run row_limit ms (answer stream) =
      collect row_limit 0 stream.records stream.broken >>= (λ x. ok (query_result ms x))

  -- The texts that were sent, in order, and the result. Without a connection there is no session;
  -- `ms` is the time that the second phase takes.
  unfoldable pub execute :
      {P : Type 0}
      → Option (Session P R)
      → Text
      → P
      → ℕ
      → ℕ
      → ℕ
      → List Text × Result (QueryResult Row)
  unfolding after_run
  execute none query parameters row_limit timeout_s ms = ([], raise db_unreachable_error)
  execute (some session) query parameters row_limit timeout_s ms =
      elim (enforce_read_only session query parameters timeout_s) [
        | raise e ↦ (explain_text query ∷ [], raise e)
        | ok _ ↦ (
          explain_text query ∷ query ∷ [],
          after_run row_limit ms (session.run query parameters timeout_s),
        )
      ]
