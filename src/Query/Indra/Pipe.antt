-- ===== src/Query/Indra/Pipe.antt =====
-- The verb `pipe` of `_dispatch_query` (src/cpp_mcp/graphdb/indradb_query_executor.py): the neighbours of a
-- vertex.
use cpp_mcp.Base.{
  ℕ, Text, List, [], ◌∷◌, Option, none, some, ◌≟◌, list_eq, nat_eq, map, take, length, codes,
  if◌then◌else◌,
}
use cpp_mcp.OrderedDict.{get, set_item}
use cpp_mcp.Errors.{Result, ok, raise, ◌>>=◌, ◌>>◌, query_parse_error, other}
use cpp_mcp.Query.Indra.Payload.{
  Json, null, text, array, object, Fields, find, validate_t, validate_uuid, require_args, arg,
}
use cpp_mcp.Query.Indra.Fetch.{
  Vertex, Edge, Direction, outbound, inbound, specific_vertices, piped_vertices, piped_edges,
  Client, flatten_results,
}
use cpp_mcp.Query.Indra.Rows.{Found, specific_rows}

unfoldable pub direction_of : Json → Result Direction
direction_of (text name) =
    if name ≟ codes "outbound"
    then ok outbound
    else if name ≟ codes "inbound"
    then ok inbound
    else raise query_parse_error
direction_of (array items) = raise other
direction_of (object fields) = raise other
direction_of _ = raise query_parse_error

unfoldable pub optional_t : Option Json → Result (Option Text)
unfolding validate_t
optional_t none = ok none
optional_t (some null) = ok none
optional_t (some v) = validate_t v >>= λ t. ok (some t)

abbrev pub neighbour_id : Direction → Edge → Text
neighbour_id outbound e = e.inbound_id
neighbour_id inbound e = e.outbound_id

-- `{str(v.id): v for v in vertices}`
unfoldable pub by_vertex_id : List Vertex → List (Text × Vertex) → List (Text × Vertex)
unfolding set_item
by_vertex_id [] found = found
by_vertex_id (v ∷ vertices) found = by_vertex_id vertices (set_item v.id v found)

-- The neighbours that the second query answers, in the order of the edges.
unfoldable pub resolved : List Text → List (Text × Vertex) → List Vertex
unfolding get
resolved [] found = []
resolved (id ∷ rest) found = elim (get id found) [
  | none ↦ resolved rest found
  | some v ↦ v ∷ resolved rest found
]

module _ (client : Client) where
  unfoldable pub neighbours : ℕ → Direction → List Edge → Result Found
  unfolding flatten_results by_vertex_id resolved specific_rows
  neighbours total direction [] = ok (total, [])
  neighbours total direction (e ∷ edges) = do
    let neighbour_ids = map (neighbour_id direction) (e ∷ edges)
    batches ← client.get_vertices (specific_vertices neighbour_ids)
    specific_rows client total (resolved neighbour_ids (by_vertex_id (flatten_results batches) []))

module _ (client : Client) (row_limit : ℕ) where
  -- Without `outbound`, the package resolves the pipe to vertices itself.
  unfoldable pub run_pipe : (Text → Option Text) → Fields → Result Found
  unfolding require_args arg validate_uuid find direction_of optional_t flatten_results
      specific_rows neighbours
  run_pipe parse_uuid args = do
    require_args args (codes "vertex_id" ∷ codes "direction" ∷ []) (codes "t" ∷ [])
    id ← validate_uuid parse_uuid (arg (codes "vertex_id") args)
    direction ← direction_of (arg (codes "direction") args)
    t ← optional_t (find (codes "t") args)
    if client.has_outbound
        then (do
          batches ← client.get_edges (piped_edges id direction t)
          let raw = flatten_results batches
          neighbours client (length raw) direction (take row_limit raw))
        else (do
          batches ← client.get_vertices (piped_vertices id direction t)
          let raw = flatten_results batches
          specific_rows client (length raw) (take row_limit raw))
