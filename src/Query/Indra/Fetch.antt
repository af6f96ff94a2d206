-- ===== src/Query/Indra/Fetch.antt =====
-- What the IndraDB executor (src/cpp_mcp/graphdb/indradb_query_executor.py) asks its client, and the rows it
-- makes of the answers.
use cpp_mcp.Base.{
  Text, List, [], ◌∷◌, ◌++◌, Option, none, some, Bool, true, false, not, ◌&&◌, list_eq, nat_eq, map,
  if◌then◌else◌, pair_eq,
}
use cpp_mcp.OrderedDict.{get, set_item}
use cpp_mcp.Errors.{Result, ok, ◌>>=◌}
use cpp_mcp.Query.Indra.Payload.{Json}

-- An id is the text that `str` makes of it.
pub record Vertex : Type 0 where
  pub id : Text
  pub t : Text

pub record Edge : Type 0 where
  pub outbound_id : Text
  pub t : Text
  pub inbound_id : Text

pub data Direction : Type 0 where
  outbound inbound : Direction

pub data VertexQuery : Type 0 where
  all_vertices : VertexQuery
  specific_vertices : List Text → VertexQuery
  piped_vertices : Text → Direction → Option Text → VertexQuery

pub data EdgeQuery : Type 0 where
  all_edges : EdgeQuery
  specific_edges : List Edge → EdgeQuery
  piped_edges : Text → Direction → Option Text → EdgeQuery

abbrev pub Props : Type 0
Props = List (Text × Json)

-- `client.get(query)` and `client.get(query.properties())`, in batches, or what they raise.
-- `has_outbound` tells the package from the one of the tests.
pub record Client : Type 0 where
  pub has_outbound : Bool
  pub get_vertices : VertexQuery → Result (List (List Vertex))
  pub get_edges : EdgeQuery → Result (List (List Edge))
  pub get_vertex_props : VertexQuery → Result (List (List (Vertex × Props)))
  pub get_edge_props : EdgeQuery → Result (List (List (Edge × Props)))

unfoldable pub flatten_results {ℓ} : {A : Type ℓ} → List (List A) → List A
flatten_results [] = []
flatten_results (batch ∷ batches) = batch ++ flatten_results batches

pub data Row : Type 0 where
  vertex_row : Text → Text → Props → Row
  edge_row : Text → Text → Text → Props → Row

abbrev pub coerce_vertex : Vertex → Props → Row
coerce_vertex v props = vertex_row v.id v.t props

abbrev pub coerce_edge : Edge → Props → Row
coerce_edge e props = edge_row e.outbound_id e.inbound_id e.t props

abbrev or_empty : Option Props → Props
or_empty none = []
or_empty (some props) = props

abbrev pub VertexProps : Type 0
VertexProps = List (Text × Props)

-- `by_id.setdefault(vid, {})[np.name] = np.value`
unfoldable pub put_vertex_props : Text → Props → VertexProps → VertexProps
unfolding get set_item
put_vertex_props vid [] by_id = by_id
put_vertex_props vid ((name, value) ∷ props) by_id =
    put_vertex_props vid props (set_item vid (set_item name value (or_empty (get vid by_id))) by_id)

unfoldable pub index_vertices : List (Vertex × Props) → VertexProps → VertexProps
unfolding put_vertex_props
index_vertices [] by_id = by_id
index_vertices ((v, props) ∷ rest) by_id = index_vertices rest (put_vertex_props v.id props by_id)

unfoldable pub props_of_vertex : VertexProps → Vertex → Props
unfolding get
props_of_vertex by_id v = or_empty (get v.id by_id)

-- The properties that a query gives, by the id of the vertex.
unfoldable pub vertex_index : Client → VertexQuery → Result VertexProps
unfolding index_vertices flatten_results
vertex_index client query = do
  batches ← client.get_vertex_props query
  ok (index_vertices (flatten_results batches) [])

unfoldable pub fetch_vertex_props : Client → VertexQuery → List Vertex → Result (List Props)
unfolding vertex_index props_of_vertex
fetch_vertex_props client query items = do
  by_id ← vertex_index client query
  ok (map (props_of_vertex by_id) items)

abbrev pub EdgeKey : Type 0
EdgeKey = Text × (Text × Text)

abbrev pub key_of : Edge → EdgeKey
key_of e = (e.outbound_id, (e.t, e.inbound_id))

abbrev pub EdgePropsIndex : Type 0
EdgePropsIndex = List (EdgeKey × Props)

unfoldable pub put_edge_props : EdgeKey → Props → EdgePropsIndex → EdgePropsIndex
unfolding get set_item
put_edge_props key [] by_key = by_key
put_edge_props key ((name, value) ∷ props) by_key =
    put_edge_props key props (set_item key (set_item name value (or_empty (get key by_key))) by_key)

abbrev is_empty : Text → Bool
is_empty [] = true
is_empty (c ∷ s) = false

-- An edge without an end or a label is skipped.
abbrev is_whole : Edge → Bool
is_whole e = not (is_empty e.outbound_id) && not (is_empty e.inbound_id) && not (is_empty e.t)

unfoldable pub index_edges : List (Edge × Props) → EdgePropsIndex → EdgePropsIndex
unfolding put_edge_props
index_edges [] by_key = by_key
index_edges ((e, props) ∷ rest) by_key =
    index_edges rest (if is_whole e then put_edge_props (key_of e) props by_key else by_key)

unfoldable pub props_of_edge : EdgePropsIndex → Edge → Props
unfolding get
props_of_edge by_key e = or_empty (get (key_of e) by_key)

unfoldable pub edge_index : Client → EdgeQuery → Result EdgePropsIndex
unfolding index_edges flatten_results
edge_index client query = do
  batches ← client.get_edge_props query
  ok (index_edges (flatten_results batches) [])

unfoldable pub fetch_edge_props : Client → EdgeQuery → List Edge → Result (List Props)
unfolding edge_index props_of_edge
fetch_edge_props client query items = do
  by_key ← edge_index client query
  ok (map (props_of_edge by_key) items)

-- `[coerce(item, p) for item, p in zip(items, props_list)]`
abbrev pub rows_of {ℓ} : {A : Type ℓ} → (A → Props → Row) → List A → List Props → List Row
rows_of coerce [] props = []
rows_of coerce (item ∷ items) [] = []
rows_of coerce (item ∷ items) (p ∷ props) = coerce item p ∷ rows_of coerce items props
