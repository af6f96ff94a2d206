-- ===== src/Query/Indra/Rows.antt =====
-- The verbs of `_dispatch_query` (src/cpp_mcp/graphdb/indradb_query_executor.py) but `pipe`.
use cpp_mcp.Base.{
  ℕ, Text, List, [], ◌∷◌, none, some, Bool, ◌≟◌, list_eq, nat_eq, map, keep, take, length, codes,
}
use cpp_mcp.OrderedDict.{get}
use cpp_mcp.Errors.{Result, ok, raise, ◌>>=◌, ◌>>◌, query_parse_error}
use cpp_mcp.Query.Indra.Payload.{
  Json, null, text, Fields, scalar_eq, validate_t, validate_scalar, require_args, arg,
}
use cpp_mcp.Query.Indra.Fetch.{
  Vertex, Edge, VertexQuery, all_vertices, specific_vertices, EdgeQuery, all_edges, specific_edges,
  Props, Client, flatten_results, Row, coerce_vertex, coerce_edge, props_of_vertex, vertex_index,
  fetch_vertex_props, props_of_edge, edge_index, fetch_edge_props, rows_of,
}

-- The rows, after `_last_total`.
abbrev pub Found : Type 0
Found = ℕ × List Row

abbrev ids : List Vertex → List Text
ids items = map (λ (v : Vertex). v.id) items

abbrev as_text : Json → Result Text
as_text (text name) = ok name
as_text _ = raise query_parse_error

-- The name and the value to compare.
unfoldable pub property_args : Fields → Result (Text × Json)
unfolding require_args arg validate_scalar
property_args args = do
  require_args args (codes "name" ∷ codes "value" ∷ []) []
  name ← as_text (arg (codes "name") args)
  value ← validate_scalar (arg (codes "value") args)
  ok (name, value)

-- `props.get(name) == value`: a property that is missing is None, and so equal to null.
unfoldable pub has_property : Text → Json → Props → Bool
unfolding get scalar_eq
has_property name value props = scalar_eq (elim (get name props) [ none ↦ null | some v ↦ v ]) value

module _ (client : Client) where
  -- The rows of the first items, with the properties that a query for them gives.
  unfoldable pub vertex_rows : ℕ → VertexQuery → List Vertex → Result Found
  unfolding fetch_vertex_props
  vertex_rows total query items = do
    props_list ← fetch_vertex_props client query items
    ok (total, rows_of coerce_vertex items props_list)

  unfoldable pub edge_rows : ℕ → EdgeQuery → List Edge → Result Found
  unfolding fetch_edge_props
  edge_rows total query items = do
    props_list ← fetch_edge_props client query items
    ok (total, rows_of coerce_edge items props_list)

  -- The same, where no items need no query.
  unfoldable pub specific_rows : ℕ → List Vertex → Result Found
  unfolding vertex_rows
  specific_rows total [] = ok (total, [])
  specific_rows total (v ∷ items) =
      vertex_rows total (specific_vertices (ids (v ∷ items))) (v ∷ items)

  unfoldable pub specific_edge_rows : ℕ → List Edge → Result Found
  unfolding edge_rows
  specific_edge_rows total [] = ok (total, [])
  specific_edge_rows total (e ∷ items) = edge_rows total (specific_edges (e ∷ items)) (e ∷ items)

module _ (client : Client) (row_limit : ℕ) where
  unfoldable pub run_all_vertices : Fields → Result Found
  unfolding require_args flatten_results vertex_rows
  run_all_vertices args = do
    require_args args [] []
    batches ← client.get_vertices all_vertices
    let raw = flatten_results batches
    vertex_rows client (length raw) all_vertices (take row_limit raw)

  unfoldable pub run_all_edges : Fields → Result Found
  unfolding require_args flatten_results edge_rows
  run_all_edges args = do
    require_args args [] []
    batches ← client.get_edges all_edges
    let raw = flatten_results batches
    edge_rows client (length raw) all_edges (take row_limit raw)

  unfoldable pub run_vertex_with_type : Fields → Result Found
  unfolding require_args validate_t arg flatten_results specific_rows
  run_vertex_with_type args = do
    require_args args (codes "t" ∷ []) []
    t ← validate_t (arg (codes "t") args)
    batches ← client.get_vertices all_vertices
    let raw = keep (λ (v : Vertex). v.t ≟ t) (flatten_results batches)
    specific_rows client (length raw) (take row_limit raw)

  unfoldable pub run_edge_with_type : Fields → Result Found
  unfolding require_args validate_t arg flatten_results specific_edge_rows
  run_edge_with_type args = do
    require_args args (codes "t" ∷ []) []
    t ← validate_t (arg (codes "t") args)
    batches ← client.get_edges all_edges
    let raw = keep (λ (e : Edge). e.t ≟ t) (flatten_results batches)
    specific_edge_rows client (length raw) (take row_limit raw)

  unfoldable pub run_vertex_with_property : Fields → Result Found
  unfolding property_args flatten_results vertex_index props_of_vertex has_property
  run_vertex_with_property args = do
    (name, value) ← property_args args
    batches ← client.get_vertices all_vertices
    by_id ← vertex_index client all_vertices
    let raw =
        keep (λ v. has_property name value (props_of_vertex by_id v)) (flatten_results batches)
    let items = take row_limit raw
    ok (length raw, rows_of coerce_vertex items (map (props_of_vertex by_id) items))

  unfoldable pub run_edge_with_property : Fields → Result Found
  unfolding property_args flatten_results edge_index props_of_edge has_property
  run_edge_with_property args = do
    (name, value) ← property_args args
    batches ← client.get_edges all_edges
    by_key ← edge_index client all_edges
    let raw = keep (λ e. has_property name value (props_of_edge by_key e)) (flatten_results batches)
    let items = take row_limit raw
    ok (length raw, rows_of coerce_edge items (map (props_of_edge by_key) items))
