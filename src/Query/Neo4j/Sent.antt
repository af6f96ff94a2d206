-- ===== src/Query/Neo4j/Sent.antt =====
-- Which texts the executor of src/cpp_mcp/graphdb/neo4j_query_executor.py sends.
use cpp_mcp.Base.{ℕ, Text, [], ◌∷◌, Option, none, some, false, any, ◌≡◌, ◌⊎◌, inl, inr, refl, arith}
use cpp_mcp.Errors.{ExceptionType, ok, raise, Result-cases}
use cpp_mcp.Query.Plan.{Plan, is_violation, operators, accepted_plan}
use cpp_mcp.Query.Neo4j.{
  Reply, answer, syntax_error, client_error, service_unavailable, failure, Session, explain_text,
  after_explain, enforce_read_only, after_run, execute,
}

module _ {R Row : Type 0} (coerce_record : R → Row) where
  after_explain_ok :
      (reply : Reply (Option Plan)) (u : Unit {0})
      → after_explain reply ≡ ok u
      → (p : Plan) × (reply ≡ answer (some p)) × (any is_violation (operators p) ≡ false)
  unfolding after_explain
  after_explain_ok syntax_error u h = absurd (cc h)
  after_explain_ok (client_error message) u h = absurd (ground (arith, h))
  after_explain_ok service_unavailable u h = absurd (cc h)
  after_explain_ok (failure e) u h = absurd (cc h)
  after_explain_ok (answer none) u h = absurd (cc h)
  after_explain_ok (answer (some p)) u h = (p, refl, accepted_plan p h)

  pub execute_allowed :
      {P : Type 0} (session : Session P R) (query : Text) (parameters : P)
      (row_limit timeout_s ms : ℕ) (u : Unit {0})
      → enforce_read_only session query parameters timeout_s ≡ ok u
      → execute coerce_record (some session) query parameters row_limit timeout_s ms ≡ (
        explain_text query ∷ query ∷ [],
        after_run coerce_record row_limit ms (session.run query parameters timeout_s),
      )
  unfolding execute
  execute_allowed session query parameters row_limit timeout_s ms u allowed =
      ground (arith, allowed)

  -- The query itself is sent only after EXPLAIN, and only if its plan has no operator that writes
  -- or calls an unlisted procedure; in every other case EXPLAIN is all that is sent, and the call
  -- raises.
  pub query_sent_if_read_only :
      {P : Type 0} (session : Session P R) (query : Text) (parameters : P)
      (row_limit timeout_s ms : ℕ)
      → ((p : Plan) × (session.explain (explain_text query) parameters timeout_s ≡ answer (some p))
          × (any is_violation (operators p) ≡ false)
          × (execute coerce_record (some session) query parameters row_limit timeout_s ms ≡ (
            explain_text query ∷ query ∷ [],
            after_run coerce_record row_limit ms (session.run query parameters timeout_s),
          )))
        ⊎ ((e : ExceptionType) × (execute coerce_record
                (some session)
                query
                parameters
                row_limit
                timeout_s
                ms
              ≡ (explain_text query ∷ [], raise e)))
  unfolding execute enforce_read_only
  query_sent_if_read_only session query parameters row_limit timeout_s ms =
      elim (Result-cases (enforce_read_only session query parameters timeout_s)) [
        | inr (e, refused) ↦ inr (e, ground (arith, refused))
        | inl (u, allowed) ↦
            let (p, found, clean) = after_explain_ok _ u allowed in
            inl (p, found, clean, ground (arith, allowed))
      ]
