-- ===== src/Query/Indra/Truncated.antt =====
-- The limit and the mark of truncation of `execute` of src/cpp_mcp/graphdb/indradb_query_executor.py.
use cpp_mcp.Base.{
  ℕ, ◌≤◌, ◌<◌, Text, List, [], ◌∷◌, Option, Bool, true, false, list_eq, nat_eq, map, take, length,
  length-take, ltb, ltb→lt, lt→ltb, min, codes, if◌then◌else◌, ◌≡◌, ◌↔◌, refl, inl, inr, arith,
  Bool-cases, Option-cases,
}
use cpp_mcp.OrderedDict.{get}
use cpp_mcp.Errors.{Result, ok, raise, Result-cases, Returns, Returns-ok, Returns-bind}
use cpp_mcp.Query.Neo4j.{QueryResult}
use cpp_mcp.Query.Tool.{Executor, RespectsLimit}
use cpp_mcp.Query.Indra.Payload.{Json, Fields, find, require_args, validate_uuid, arg}
use cpp_mcp.Query.Indra.Fetch.{
  Vertex, Edge, Direction, specific_vertices, piped_vertices, piped_edges, Client, flatten_results,
  Row,
}
use cpp_mcp.Query.Indra.Request.{
  Verb, all_vertices_verb, all_edges_verb, vertex_with_type, edge_with_type,
  vertex_with_property_equal, edge_with_property_equal, pipe, parse_query,
}
use cpp_mcp.Query.Indra.Rows.{Found}
use cpp_mcp.Query.Indra.Pipe.{
  direction_of, optional_t, neighbour_id, by_vertex_id, resolved, neighbours, run_pipe,
}
use cpp_mcp.Query.Indra.Dispatch.{run_verb, dispatch_query, execute}
use cpp_mcp.Query.Indra.Limit.{
  length-map, Counted-specific_rows, First, First-take, FirstOf-First, Answers-run_all_vertices,
  Answers-run_all_edges, Answers-run_vertex_with_type, Answers-run_edge_with_type,
  Answers-run_vertex_with_property, Answers-run_edge_with_property,
}
use cpp_mcp.Query.Indra.Matching.{Item, item_of, Matching, Answers}

-- No more rows than the limit and than the total.
abbrev Within : ℕ → Found → Type 0
Within row_limit found = (length found.1 ≤ row_limit) × (length found.1 ≤ found.0)

First-Within : (row_limit : ℕ) (found : Found) → First row_limit found → Within row_limit found
First-Within row_limit found h = (omega (arith, h), omega (arith, h))

Within-First :
    (row_limit : ℕ) (r : Result Found) → Returns (First row_limit) r → Returns (Within row_limit) r
Within-First row_limit r h found e = First-Within row_limit found (h found e)

length-resolved :
    (ids : List Text) (found : List (Text × Vertex)) → length (resolved ids found) ≤ length ids
unfolding resolved
length-resolved [] found = omega arith
length-resolved (id ∷ ids) found = elim (Option-cases (get id found)) [
  | inl e ↦ ground (arith, e, length-resolved ids found)
  | inr (v, e) ↦ ground (arith, e, length-resolved ids found)
]

Returns-if :
    {A : Type 0} (P : A → Type 0) (b : Bool) (x y : Result A)
    → Returns P x
    → Returns P y
    → Returns P (if b then x else y)
Returns-if P true x y h k = h
Returns-if P false x y h k = k

Within-neighbours :
    (client : Client) (row_limit total : ℕ) (direction : Direction) (edges : List Edge)
    → length edges ≤ row_limit
    → length edges ≤ total
    → Returns (Within row_limit) (neighbours client total direction edges)
unfolding neighbours
Within-neighbours client row_limit total direction [] h k =
    Returns-ok (Within row_limit) (total, []) (omega arith, omega arith)
Within-neighbours client row_limit total direction (e ∷ edges) h k =
    let ids = map (neighbour_id direction) (e ∷ edges) in
    Returns-bind (Within row_limit) (client.get_vertices (specific_vertices ids)) _
      (λ batches e' found same.
        let known = by_vertex_id (flatten_results batches) [] in
        let counted = Counted-specific_rows client total (resolved ids known) found same in
        let bound = length-resolved ids known in
        let all = length-map (neighbour_id direction) (e ∷ edges) in
        (
          omega (arith, counted.1, bound, all, h),
          omega (arith, counted.0, counted.1, bound, all, k),
        ))

module _ (client : Client) (row_limit : ℕ) (parse_uuid : Text → Option Text) (args : Fields) where
  Within-run_pipe : Returns (Within row_limit) (run_pipe client row_limit parse_uuid args)
  unfolding run_pipe
  Within-run_pipe =
      let P = Within row_limit in
      Returns-bind P
        (require_args args (codes "vertex_id" ∷ codes "direction" ∷ []) (codes "t" ∷ [])) _
        (λ u e. Returns-bind P (validate_uuid parse_uuid (arg (codes "vertex_id") args)) _ (λ id e'.
          Returns-bind P (direction_of (arg (codes "direction") args)) _ (λ direction e''.
            Returns-bind P (optional_t (find (codes "t") args)) _ (λ t e'''.
              Returns-if P client.has_outbound _ _
                (Returns-bind P (client.get_edges (piped_edges id direction t)) _ (λ batches h.
                  let raw = flatten_results batches in
                  let n = length-take row_limit raw in
                  Within-neighbours client row_limit (length raw) direction (take row_limit raw)
                    (omega (arith, n)) (omega (arith, n))))
                (Returns-bind P (client.get_vertices (piped_vertices id direction t)) _
                  (λ batches h.
                    let raw = flatten_results batches in
                    Within-First row_limit _ (
                      First-take row_limit raw _
                        (Counted-specific_rows client (length raw) (take row_limit raw)))))))))

abbrev pub is_pipe : Verb → Bool
is_pipe pipe = true
is_pipe _ = false

module _ (client : Client) (row_limit : ℕ) (loads : Text → Option Json)
    (parse_uuid : Text → Option Text) where
  Answers-run_verb :
      (verb : Verb) (args : Fields)
      → is_pipe verb ≡ false
      → Returns
          (Answers client row_limit verb args)
          (run_verb client row_limit parse_uuid verb args)
  unfolding run_verb
  Answers-run_verb all_vertices_verb args h = Answers-run_all_vertices client row_limit args
  Answers-run_verb all_edges_verb args h = Answers-run_all_edges client row_limit args
  Answers-run_verb vertex_with_type args h = Answers-run_vertex_with_type client row_limit args
  Answers-run_verb edge_with_type args h = Answers-run_edge_with_type client row_limit args
  Answers-run_verb vertex_with_property_equal args h =
      Answers-run_vertex_with_property client row_limit args
  Answers-run_verb edge_with_property_equal args h =
      Answers-run_edge_with_property client row_limit args
  Answers-run_verb pipe args h = absurd (cc h)

  Within-piped :
      (verb : Verb) (args : Fields)
      → is_pipe verb ≡ true
      → Returns (Within row_limit) (run_verb client row_limit parse_uuid verb args)
  unfolding run_verb
  Within-piped pipe args h = Within-run_pipe client row_limit parse_uuid args
  Within-piped _ args h = absurd (cc h)

  Within-run_verb :
      (verb : Verb) (args : Fields)
      → Returns (Within row_limit) (run_verb client row_limit parse_uuid verb args)
  Within-run_verb verb args = elim (Bool-cases (is_pipe verb)) [
    | inr other_verb ↦ λ found ran.
        let (items, matching, first) = Answers-run_verb verb args other_verb found ran in
        First-Within row_limit found (FirstOf-First row_limit items found first)
    | inl piped ↦ Within-piped verb args piped
  ]

  Within-dispatch_query :
      (query : Text)
      → Returns (Within row_limit) (dispatch_query client row_limit loads parse_uuid query)
  unfolding dispatch_query
  Within-dispatch_query query =
      Returns-bind (Within row_limit) (parse_query loads query) _
        (λ parsed e. Within-run_verb parsed.0 parsed.1)

-- The IndraDB executor never returns more rows than the limit that it is given, for any verb, and
-- reports the number of its rows.
pub execute_within_limit :
    (client : Client) (loads : Text → Option Json) (parse_uuid : Text → Option Text) (ms : ℕ)
    (query : Text) (row_limit timeout_s : ℕ) (r : QueryResult Row)
    → execute loads parse_uuid client ms query row_limit timeout_s ≡ ok r
    → (r.rows_returned ≡ length r.rows) × (r.rows_returned ≤ row_limit)
unfolding execute
execute_within_limit client loads parse_uuid ms query row_limit timeout_s =
    Returns-bind _ (dispatch_query client row_limit loads parse_uuid query) _ (λ found e.
      Returns-ok
        (λ (r : QueryResult Row). (r.rows_returned ≡ length r.rows) × (r.rows_returned ≤ row_limit))
        _ (refl, (Within-dispatch_query client row_limit loads parse_uuid query found e).0))

-- The executor of one client, whose clock says `ms`.
abbrev executor :
    Client
    → (Text → Option Json)
    → (Text → Option Text)
    → ℕ
    → (Text → Result (Unit {0}))
    → Executor Row
executor client loads parse_uuid ms connect = record {
  connect = connect;
  execute = execute loads parse_uuid client ms;
}

-- So it fills the promise that the query tool asks of an executor.
execute-RespectsLimit :
    (client : Client) (loads : Text → Option Json) (parse_uuid : Text → Option Text) (ms : ℕ)
    (connect : Text → Result (Unit {0}))
    → RespectsLimit (executor client loads parse_uuid ms connect)
execute-RespectsLimit client loads parse_uuid ms connect =
    execute_within_limit client loads parse_uuid ms

-- For every verb but `pipe`, the rows of a query show, in the order of the client, the first of all
-- items that match it (`Matching`: the vertices or edges that the client has, of the type or with the
-- property that is asked for), as many as the limit allows; the result reports their number, and it is
-- marked as truncated exactly when more match than the limit allows.
pub execute_truncated :
    (client : Client) (loads : Text → Option Json) (parse_uuid : Text → Option Text)
    (ms row_limit timeout_s : ℕ) (query : Text) (verb : Verb) (args : Fields) (r : QueryResult Row)
    → parse_query loads query ≡ ok (verb, args)
    → is_pipe verb ≡ false
    → execute loads parse_uuid client ms query row_limit timeout_s ≡ ok r
    → (items : List Item) × Matching client args verb items
      × (map item_of r.rows ≡ take row_limit items)
      × (r.rows_returned ≡ min row_limit (length items))
      × ((r.truncated ≡ true) ↔ (row_limit < length items))
unfolding execute dispatch_query
execute_truncated client loads parse_uuid ms row_limit timeout_s query verb args r parsed h ran =
    elim (Result-cases (run_verb client row_limit parse_uuid verb args)) [
      | inr (e, failed) ↦
          let ran' : execute loads parse_uuid client ms query row_limit timeout_s ≡ raise e =
            rw (execute, dispatch_query, parsed, failed) refl in
          absurd (cc (ran, ran'))
      | inl ((total, rows), found) ↦
          let result : QueryResult Row = record {
            rows = rows;
            rows_returned = length rows;
            truncated = ltb (length rows) total;
            ms = ms;
          } in
          let ran' : execute loads parse_uuid client ms query row_limit timeout_s ≡ ok result =
            rw (execute, dispatch_query, parsed, found) refl in
          let same : result ≡ r = cc (ran, ran') in
          let (items, matching, first) =
            Answers-run_verb client row_limit loads parse_uuid verb args h (total, rows) found in
          let all = first.0 in
          let n = FirstOf-First row_limit items (total, rows) first in
          rw (← same) (
            items,
            matching,
            first.1,
            omega (arith, n, all),
            (
              λ cut. omega (arith, ltb→lt (length rows) total cut, n, all),
              λ more. lt→ltb (length rows) total (omega (arith, more, n, all)),
            ),
          )
    ]
