-- ===== src/Query/Tests.antt =====
-- Runs of the queries of src/cpp_mcp/graphdb/neo4j_query_executor.py and src/cpp_mcp/tools/query_graphdb.py,
-- and the theorems at them.
use cpp_mcp.Base.{
  ℕ, ◌*◌, ◌≤◌, Text, [], ◌∷◌, none, some, true, false, ◌≡◌, ◌⊎◌, refl, codes, pos, any, length,
  if◌then◌else◌, starts_with, is_space, contains, strip, lstrip, rstrip,
}
use cpp_mcp.Errors.{ExceptionType, ok, raise, read_only_violation_error, other, query_timeout_error}
use cpp_mcp.Query.Plan.{
  Operator, Plan, plan, nil, cons, raw_procedure, before_paren, proc_name, walk_plan, operators,
  is_violation, walk_plan_lem,
}
use cpp_mcp.Query.Neo4j.{
  Session, Stream, QueryResult, answer, after_explain, enforce_read_only, collect, query_result,
  after_run, execute, explain_text,
}
use cpp_mcp.Query.Neo4j.Sent.{query_sent_if_read_only}
use cpp_mcp.Query.Neo4j.Rows.{rows_of_stream, within_limit}
use cpp_mcp.Query.Tool
use cpp_mcp.Query.Tool.{
  clamp, resolve_query_timeout_s, Backend, neo4j, indradb, select_executor, Executor, connect_error,
  reply_of, use_executor, do_query_graphdb, query_graphdb_tool, timeout_in_range, RespectsLimit,
  reply_rows,
}

program : Unit {0}
unfolding starts_with is_space contains raw_procedure before_paren strip lstrip rstrip proc_name
    walk_plan operators is_violation after_explain enforce_read_only collect query_result after_run
    execute clamp resolve_query_timeout_s select_executor connect_error reply_of use_executor
    do_query_graphdb query_graphdb_tool
program = tt

abbrev operator : Text → Operator
operator t = record { operator_type = t; details = none; name = none }

abbrev procedure : Text → Operator
procedure signature = record {
  operator_type = codes "ProcedureCall";
  details = some signature;
  name = none;
}

-- A plan with a listed procedure below a read.
abbrev reads : Plan
reads =
    plan (operator (codes "ProduceResults"))
      (cons (plan (procedure (codes "db.labels() :: (label :: STRING)")) nil) nil)

abbrev writes : Plan
writes =
    plan (operator (codes "ProduceResults")) (cons (plan (operator (codes "CreateNode")) nil) nil)

plans :
    (walk_plan reads ≡ ok tt)
    × (walk_plan writes ≡ raise read_only_violation_error)
    × (walk_plan (plan (procedure (codes "apoc.create.node(x)")) nil)
        ≡ raise read_only_violation_error)
    × (walk_plan (plan (procedure []) nil) ≡ raise read_only_violation_error)
unfolding program
plans = (refl, refl, refl, refl)

walk_plan_lem_example :
    walk_plan writes
    ≡ (if any is_violation (operators writes) then raise read_only_violation_error else ok tt)
walk_plan_lem_example = walk_plan_lem writes

-- The database gives three numbers, then the stream breaks.
abbrev stream : Stream ℕ
stream = record { records = 1 ∷ 2 ∷ 3 ∷ []; broken = some other }

abbrev session : Session (Unit {0}) ℕ
session = record {
  explain = λ text p seconds. answer (some reads);
  run = λ text p seconds. answer stream;
}

abbrev query : Text
query = codes "CALL db.labels()"

abbrev double : ℕ → ℕ
double n = n * 2

abbrev two_rows : QueryResult ℕ
two_rows = record { rows = 2 ∷ 4 ∷ []; rows_returned = 2; truncated = true; ms = 9 }

-- Two rows of three; with room for all three the end of the stream is reached, and it is broken.
limits :
    (execute double (some session) query tt 2 30 9 ≡ (explain_text query ∷ query ∷ [], ok two_rows))
    × ((execute double (some session) query tt 3 30 9).1 ≡ raise other)
unfolding program
limits = (refl, refl)

query_sent_if_read_only_example :
    ((p : Plan) × (session.explain (explain_text query) tt 30 ≡ answer (some p))
      × (any is_violation (operators p) ≡ false)
      × (execute double (some session) query tt 2 30 9
          ≡ (explain_text query ∷ query ∷ [], after_run double 2 9 (session.run query tt 30))))
    ⊎ ((e : ExceptionType) × (execute double (some session) query tt 2 30 9
          ≡ (explain_text query ∷ [], raise e)))
query_sent_if_read_only_example = query_sent_if_read_only double session query tt 2 30 9

allowed : enforce_read_only session query tt 30 ≡ ok tt
unfolding program
allowed = refl

rows_of_stream_example : (execute double (some session) query tt 2 30 9).1 ≡ ok two_rows
rows_of_stream_example = rows_of_stream double session query tt 2 30 9 stream allowed refl

ran : (execute double (some session) query tt 2 30 9).1 ≡ ok two_rows
unfolding program
ran = refl

-- The executor of the session above, for either backend.
abbrev executors : Backend → Executor ℕ
executors backend = record {
  connect = λ uri. ok tt;
  execute = λ q limit seconds. (execute double (some session) q tt limit seconds 9).1;
}

promise : (backend : Backend) → RespectsLimit (executors backend)
promise backend q limit seconds r h = within_limit double (some session) q tt limit seconds 9 r h

abbrev bolt : Text → Text
bolt uri = codes "bolt"

abbrev uri : Text
uri = codes "bolt://db"

abbrev two_reply : Tool.Reply ℕ
two_reply = record {
  rows = 2 ∷ 4 ∷ [];
  backend = neo4j;
  ms = 9;
  rows_returned = 2;
  truncated = true;
  request_id = codes "7";
}

answered : query_graphdb_tool bolt executors uri query (pos 2) (codes "7") 30 false ≡ ok two_reply
unfolding program
answered = refl

late :
    query_graphdb_tool bolt executors uri query (pos 2) (codes "7") 30 true
    ≡ raise query_timeout_error
unfolding program
late = refl

reply_rows_example : (2 ≡ length two_reply.rows) × (2 ≤ 500) × (2 ≤ clamp 1 500 (pos 2))
reply_rows_example =
    reply_rows bolt executors promise uri query (pos 2) (codes "7") 30 false two_reply answered
