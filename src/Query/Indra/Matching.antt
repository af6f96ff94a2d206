-- ===== src/Query/Indra/Matching.antt =====
-- What matches a query of src/cpp_mcp/graphdb/indradb_query_executor.py, for every verb but `pipe`: a specification
-- of `_dispatch_query` that knows neither the limit nor the rows.
use cpp_mcp.Base.{ℕ, Text, List, ◌≟◌, list_eq, nat_eq, map, keep, take, length, codes, ◌≡◌}
use cpp_mcp.Errors.{ok}
use cpp_mcp.Query.Indra.Payload.{Json, Fields, validate_t, arg}
use cpp_mcp.Query.Indra.Fetch.{
  Vertex, Edge, all_vertices, all_edges, Client, flatten_results, Row, vertex_row, edge_row,
  VertexProps, EdgePropsIndex, props_of_vertex, vertex_index, props_of_edge, edge_index,
}
use cpp_mcp.Query.Indra.Request.{
  Verb, all_vertices_verb, all_edges_verb, vertex_with_type, edge_with_type,
  vertex_with_property_equal, edge_with_property_equal,
}
use cpp_mcp.Query.Indra.Rows.{Found, property_args, has_property}

-- A vertex or an edge of the database.
pub data Item : Type 0 where
  vertex_item : Vertex → Item
  edge_item : Edge → Item

-- The item that a row shows.
abbrev pub item_of : Row → Item
item_of (vertex_row id t props) = vertex_item (record { id = id; t = t })
item_of (edge_row source target t props) =
    edge_item (record { outbound_id = source; t = t; inbound_id = target })

-- All that match, in the order of the client.
pub data Matching (client : Client) (args : Fields) : Verb → List Item → Type 0 where
  every_vertex :
      (batches : List (List Vertex))
      → client.get_vertices all_vertices ≡ ok batches
      → Matching client args all_vertices_verb (map vertex_item (flatten_results batches))
  every_edge :
      (batches : List (List Edge))
      → client.get_edges all_edges ≡ ok batches
      → Matching client args all_edges_verb (map edge_item (flatten_results batches))
  vertices_of_type :
      (t : Text) (batches : List (List Vertex))
      → validate_t (arg (codes "t") args) ≡ ok t
      → client.get_vertices all_vertices ≡ ok batches
      → Matching client args vertex_with_type
          (map vertex_item (keep (λ (v : Vertex). v.t ≟ t) (flatten_results batches)))
  edges_of_type :
      (t : Text) (batches : List (List Edge))
      → validate_t (arg (codes "t") args) ≡ ok t
      → client.get_edges all_edges ≡ ok batches
      → Matching client args edge_with_type
          (map edge_item (keep (λ (e : Edge). e.t ≟ t) (flatten_results batches)))
  vertices_with :
      (name : Text) (value : Json) (batches : List (List Vertex)) (by_id : VertexProps)
      → property_args args ≡ ok (name, value)
      → client.get_vertices all_vertices ≡ ok batches
      → vertex_index client all_vertices ≡ ok by_id
      → Matching client args vertex_with_property_equal (
          map vertex_item (
            keep
              (λ v. has_property name value (props_of_vertex by_id v))
              (flatten_results batches)))
  edges_with :
      (name : Text) (value : Json) (batches : List (List Edge)) (by_key : EdgePropsIndex)
      → property_args args ≡ ok (name, value)
      → client.get_edges all_edges ≡ ok batches
      → edge_index client all_edges ≡ ok by_key
      → Matching client args edge_with_property_equal (
          map edge_item (
            keep (λ e. has_property name value (props_of_edge by_key e)) (flatten_results batches)))

-- The rows show the first of the items, as many as the limit allows, and the total counts them all.
abbrev pub FirstOf : ℕ → List Item → Found → Type 0
FirstOf row_limit items found =
    (found.0 ≡ length items) × (map item_of found.1 ≡ take row_limit items)

abbrev pub Answers : Client → ℕ → Verb → Fields → Found → Type 0
Answers client row_limit verb args found =
    (items : List Item) × Matching client args verb items × FirstOf row_limit items found
