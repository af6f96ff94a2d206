-- ===== src/Query/Neo4j/Rows.antt =====
-- The rows that the executor of src/cpp_mcp/graphdb/neo4j_query_executor.py returns.
use cpp_mcp.Base.{
  ℕ, zero, suc, ◌+◌, ◌≤◌, Text, List, [], ◌∷◌, Option, none, some, Bool, true, false, map, length,
  length-take, take, ltb, if◌then◌else◌, ◌≡◌, inl, inr, refl, ap, sym, ◌∙◌, arith, Bool-cases,
}
use cpp_mcp.Errors.{ExceptionType, Result, ok, ◌>>=◌, Result-cases}
use cpp_mcp.Query.Neo4j.{
  Stream, Reply, answer, syntax_error, client_error, service_unavailable, failure, Session,
  QueryResult, ending, enforce_read_only, put, collect, query_result, after_run, execute,
}
use cpp_mcp.Query.Neo4j.Sent.{execute_allowed}

module _ {R Row : Type 0} (coerce_record : R → Row) where
  -- Reading at most `n` records: what is left over is neither read nor waited for.
  abbrev pub first_rows : ℕ → Stream R → Result (List Row × Bool)
  first_rows n stream =
      if ltb n (length stream.records)
      then ok (map coerce_record (take n stream.records), true)
      else ending (map coerce_record stream.records, false) stream.broken

  put_first :
      (r : R) (rows : List Row) (truncated : Bool) (broken : Option ExceptionType)
      → (ending {A = List Row × Bool} (rows, truncated) broken >>= put coerce_record r)
        ≡ ending (coerce_record r ∷ rows, truncated) broken
  put_first r rows truncated none = refl
  put_first r rows truncated (some e) = refl

  collect-eq-first_rows :
      (row_limit i n : ℕ) (records : List R) (broken : Option ExceptionType)
      → row_limit ≡ i + n
      → collect coerce_record row_limit i records broken
        ≡ first_rows n (record { records = records; broken = broken })
  unfolding collect
  collect-eq-first_rows row_limit i n [] none h =
      let e : ltb n 0 ≡ false = ground arith in rw e refl
  collect-eq-first_rows row_limit i n [] (some x) h =
      let e : ltb n 0 ≡ false = ground arith in rw e refl
  collect-eq-first_rows row_limit i zero (r ∷ records) broken h =
      let e : ltb i row_limit ≡ false = ground (arith, h) in
      let e' : ltb 0 (suc (length records)) ≡ true = ground arith in rw (e, e') refl
  collect-eq-first_rows row_limit i (suc n) (r ∷ records) broken h =
      let e : ltb i row_limit ≡ true = ground (arith, h) in
      let rest = collect-eq-first_rows row_limit (i + 1) n records broken (omega (arith, h)) in
      elim (Bool-cases (ltb n (length records))) [
        | inl more ↦
            let more' : ltb (suc n) (suc (length records)) ≡ true = ground (arith, more) in
            rw (e, rest, more, more') refl
        | inr all_read ↦
            let none_left : ltb (suc n) (suc (length records)) ≡ false = ground (arith, all_read) in
            rw (e, rest, all_read, none_left) (put_first r (map coerce_record records) false broken)
      ]

  length-map : (records : List R) → length (map coerce_record records) ≡ length records
  length-map [] = refl
  length-map (r ∷ records) = omega (arith, length-map records)

  result_of_first :
      (n ms : ℕ) (stream : Stream R)
      → (first_rows n stream >>= (λ x. ok (query_result coerce_record ms x))) ≡ (
          if ltb n (length stream.records)
          then ok (record {
            rows = map coerce_record (take n stream.records);
            rows_returned = n;
            truncated = true;
            ms = ms;
          })
          else ending
              (record {
                rows = map coerce_record stream.records;
                rows_returned = length stream.records;
                truncated = false;
                ms = ms;
              })
              stream.broken)
  unfolding query_result
  result_of_first n ms stream = elim (Bool-cases (ltb n (length stream.records))) [
    | inl more ↦
        let e : length (map coerce_record (take n stream.records)) ≡ n =
          ground (arith, length-map (take n stream.records), length-take n stream.records, more) in
        rw (more, e) refl
    | inr all_read ↦ rw (all_read, ← length-map stream.records) (whole stream.broken)
  ]
    where
      whole :
          (b : Option ExceptionType)
          → (ending {A = List Row × Bool} (map coerce_record stream.records, false) b
              >>= (λ x. ok (query_result coerce_record ms x)))
            ≡ ending (query_result coerce_record ms (map coerce_record stream.records, false)) b
      whole none = refl
      whole (some e) = refl

  ended_within :
      (n ms : ℕ) (records : List R) (broken : Option ExceptionType) (result : QueryResult Row)
      → length records ≤ n
      → ending
          (record {
            rows = map coerce_record records;
            rows_returned = length records;
            truncated = false;
            ms = ms;
          })
          broken
        ≡ ok result
      → (result.rows_returned ≡ length result.rows) × (result.rows_returned ≤ n)
  ended_within n ms records none result fits h = ground (arith, length-map records, h)
  ended_within n ms records (some e) result fits h = absurd (cc h)

  filled_within :
      (n ms : ℕ) (records : List R) (result : QueryResult Row)
      → ltb n (length records) ≡ true
      → ok (record {
        rows = map coerce_record (take n records);
        rows_returned = n;
        truncated = true;
        ms = ms;
      })
        ≡ ok result
      → (result.rows_returned ≡ length result.rows) × (result.rows_returned ≤ n)
  filled_within n ms records result more h =
      ground (arith, length-map (take n records), length-take n records, h)

  after_run_within :
      (n ms : ℕ) (reply : Reply (Stream R)) (result : QueryResult Row)
      → after_run coerce_record n ms reply ≡ ok result
      → (result.rows_returned ≡ length result.rows) × (result.rows_returned ≤ n)
  unfolding after_run query_result
  after_run_within n ms syntax_error result h = absurd (cc h)
  after_run_within n ms (client_error message) result h = absurd (ground (arith, h))
  after_run_within n ms service_unavailable result h = absurd (cc h)
  after_run_within n ms (failure e) result h = absurd (cc h)
  after_run_within n ms (answer stream) result h =
      let rows = collect-eq-first_rows n 0 n stream.records stream.broken (omega arith) in
      let e =
        sym (
          ap (λ x. x >>= (λ y. ok (query_result coerce_record ms y))) rows
          ∙ result_of_first n ms stream)
        ∙ h in
      elim (Bool-cases (ltb n (length stream.records))) [
        | inl more ↦ filled_within n ms stream.records result more (rw more at e)
        | inr all_read ↦
            ended_within n ms stream.records stream.broken result (ground (arith, all_read))
              (rw all_read at e)
      ]

  -- When the plan is accepted and the query gives a stream: the first `row_limit` records in order,
  -- coerced, with their number, and `truncated` exactly when there are more. An exception that
  -- breaks the stream reaches the caller as it is, and only if it comes within the limit.
  pub rows_of_stream :
      {P : Type 0} (session : Session P R) (query : Text) (parameters : P)
      (row_limit timeout_s ms : ℕ) (stream : Stream R)
      → enforce_read_only session query parameters timeout_s ≡ ok tt
      → session.run query parameters timeout_s ≡ answer stream
      → ((execute coerce_record (some session) query parameters row_limit timeout_s ms).1 ≡ (
          if ltb row_limit (length stream.records)
          then ok (record {
            rows = map coerce_record (take row_limit stream.records);
            rows_returned = row_limit;
            truncated = true;
            ms = ms;
          })
          else ending
              (record {
                rows = map coerce_record stream.records;
                rows_returned = length stream.records;
                truncated = false;
                ms = ms;
              })
              stream.broken))
  unfolding execute after_run
  rows_of_stream session query parameters row_limit timeout_s ms stream allowed answered =
      let rows =
        collect-eq-first_rows row_limit 0 row_limit stream.records stream.broken (omega arith) in
      ap (λ x. x.1)
        (execute_allowed coerce_record session query parameters row_limit timeout_s ms tt allowed)
      ∙ ap (after_run coerce_record row_limit ms) answered
      ∙ ap (λ x. x >>= (λ y. ok (query_result coerce_record ms y))) rows
      ∙ result_of_first row_limit ms stream

  -- A result never has more rows than the limit, and says how many it has.
  pub within_limit :
      {P : Type 0} (connection : Option (Session P R)) (query : Text) (parameters : P)
      (row_limit timeout_s ms : ℕ) (result : QueryResult Row)
      → (execute coerce_record connection query parameters row_limit timeout_s ms).1 ≡ ok result
      → (result.rows_returned ≡ length result.rows) × (result.rows_returned ≤ row_limit)
  unfolding execute
  within_limit none query parameters row_limit timeout_s ms result h = absurd (cc h)
  within_limit (some session) query parameters row_limit timeout_s ms result h =
      elim (Result-cases (enforce_read_only session query parameters timeout_s)) [
        | inr (e, refused) ↦ absurd (ground (arith, refused, h))
        | inl (u, allowed) ↦
            after_run_within row_limit ms (session.run query parameters timeout_s) result (
              sym (
                ap (λ x. x.1)
                  (execute_allowed coerce_record session query parameters row_limit timeout_s ms u
                    allowed))
              ∙ h)
      ]
