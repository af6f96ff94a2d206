-- ===== src/Introspect/Indra.antt =====
-- `IndraDbSchemaIntrospector` of src/cpp_mcp/graphdb/schema_introspector.py, over the client of the
-- IndraDB package, which is a parameter.
pub mod Groups
pub mod Counts
use cpp_mcp.Base.{
  ℕ, Text, List, [], ◌∷◌, ◌++◌, map, take, length, codes, elem, keep, any, add_new, Option, none,
  some, Bool, true, false, not, ◌&&◌, ◌||◌, ◌≟◌, list_eq, nat_eq, if◌then◌else◌,
}
use cpp_mcp.Errors.{Result, ok, raise, ◌>>=◌, db_unreachable_error, dependency_missing_error}
use cpp_mcp.Exporter.Cursor.{schema_version}
use cpp_mcp.Drivers.Indra.{Indradb, strip_scheme}
use cpp_mcp.Query.Indra.Payload.{Json}
use cpp_mcp.Query.Indra.Fetch.{
  Vertex, Edge, Props, Client, VertexQuery, EdgeQuery, all_vertices, all_edges, specific_vertices,
  specific_edges,
}
use cpp_mcp.Introspect.Entries.{Entry, total, update, sort_types, sorted_names}

pub data Note : Type 0 where
  sample_note live_note pre_v6_note : Note
  version_note : Text → Note

-- The fields of a description but the version of the code, which is a constant, and the backend.
pub record Description : Type 0 where
  pub node_types : List Entry
  pub edge_types : List Entry
  pub vertices : ℕ
  pub edges : ℕ
  pub notes : List Note

module _ {A : Type 0} where
  -- `groups.setdefault(t, []).append(item)`
  unfoldable pub add_to_group : Text → A → List (Text × List A) → List (Text × List A)
  add_to_group t item [] = (t, item ∷ []) ∷ []
  add_to_group t item ((s, items) ∷ groups) =
      if s ≟ t then (s, items ++ item ∷ []) ∷ groups else (s, items) ∷ add_to_group t item groups

  unfoldable pub group_batch : (A → Text) → List A → List (Text × List A) → List (Text × List A)
  unfolding add_to_group
  group_batch type_of [] groups = groups
  group_batch type_of (item ∷ batch) groups =
      group_batch type_of batch (add_to_group (type_of item) item groups)

  unfoldable pub group_batches :
      (A → Text) → List (List A) → List (Text × List A) → List (Text × List A)
  unfolding group_batch
  group_batches type_of [] groups = groups
  group_batches type_of (batch ∷ batches) groups =
      group_batches type_of batches (group_batch type_of batch groups)

  -- The names of the properties that the batches hold.
  unfoldable pub names_in : List (A × Props) → List Text
  names_in [] = []
  names_in ((item, props) ∷ batch) = map (λ (p : Text × Json). p.0) props ++ names_in batch

  unfoldable pub names_in_batches : List (List (A × Props)) → List Text
  unfolding names_in
  names_in_batches [] = []
  names_in_batches (batch ∷ batches) = names_in batch ++ names_in_batches batches

  -- The loop of `_vertex_property_keys` and `_edge_property_keys`, with one query for each item.
  unfoldable pub property_keys :
      (A → Result (List (List (A × Props)))) → List A → List Text → Result (List Text)
  unfolding names_in_batches update
  property_keys props_of [] keys = ok keys
  property_keys props_of (item ∷ items) keys = do
    batches ← props_of item
    property_keys props_of items (update keys (names_in_batches batches))

  -- The loop over the groups.
  unfoldable pub type_entries :
      (A → Result (List (List (A × Props)))) → ℕ → List (Text × List A) → Result (List Entry)
  unfolding property_keys sorted_names
  type_entries props_of sample_size [] = ok []
  type_entries props_of sample_size ((name, items) ∷ groups) = do
    keys ← property_keys props_of (take sample_size items) []
    entries ← type_entries props_of sample_size groups
    ok (record { name = name; count = length items; property_keys = sorted_names keys } ∷ entries)

-- The versions that are observed: whether a vertex with properties has none, and the set of the others.
pub record Observed : Type 0 where
  pub has_null : Bool
  pub versions : List Text

-- The values of `schema_version` among the properties, as `str` shows them.
unfoldable pub versions_in : (Json → Text) → Props → List Text
versions_in str [] = []
versions_in str ((name, value) ∷ props) =
    let rest = versions_in str props in
    if name ≟ codes "schema_version" then str value ∷ rest else rest

abbrev all_props : List (List (Vertex × Props)) → Props
all_props [] = []
all_props ([] ∷ batches) = all_props batches
all_props (((v, props) ∷ batch) ∷ batches) = props ++ all_props (batch ∷ batches)

unfoldable pub observe : (Json → Text) → Props → Observed → Observed
unfolding versions_in update
observe str [] seen = seen
observe str (p ∷ props) seen = elim (versions_in str (p ∷ props)) [
  | [] ↦ record seen { has_null = true }
  | v ∷ vs ↦ record seen { versions = update seen.versions (v ∷ vs) }
]

unfoldable pub observe_all :
    (Json → Text)
    → (Vertex → Result (List (List (Vertex × Props))))
    → List Vertex
    → Observed
    → Result Observed
unfolding observe
observe_all str props_of [] seen = ok seen
observe_all str props_of (v ∷ vertices) seen = do
  batches ← props_of v
  observe_all str props_of vertices (observe str (all_props batches) seen)

abbrev static_notes : List Note
static_notes = sample_note ∷ live_note ∷ []

abbrev is_other : Text → Bool
is_other v = not (v ≟ schema_version)

unfoldable pub version_notes : Observed → List Note
unfolding sorted_names
version_notes seen = elim seen.versions [
  | [] ↦ if seen.has_null then pre_v6_note ∷ [] else []
  | v ∷ vs ↦ map version_note (sorted_names (keep is_other (v ∷ vs)))
]

unfoldable pub group_of : {A : Type 0} → Text → List (Text × List A) → List A
group_of name [] = []
group_of name ((s, items) ∷ groups) = if s ≟ name then items else group_of name groups

module _ (str : Json → Text) (client : Client) where
  abbrev pub vertex_props : Vertex → Result (List (List (Vertex × Props)))
  vertex_props v = client.get_vertex_props (specific_vertices (v.id ∷ []))

  abbrev pub edge_props : Edge → Result (List (List (Edge × Props)))
  edge_props e = client.get_edge_props (specific_edges (e ∷ []))

  unfoldable pub build_notes : List (Text × List Vertex) → Result (List Note)
  unfolding observe_all version_notes group_of
  build_notes vertex_groups = do
    seen ←
        observe_all str vertex_props (group_of (codes "File") vertex_groups)
          (record { has_null = false; versions = [] })
    ok (static_notes ++ version_notes seen)

  -- `describe` of a connected introspector.
  unfoldable pub describe : ℕ → Result Description
  unfolding group_batches type_entries build_notes
  describe sample_size = do
    vertex_batches ← client.get_vertices all_vertices
    edge_batches ← client.get_edges all_edges
    let vertex_groups = group_batches (λ (v : Vertex). v.t) vertex_batches []
    let edge_groups = group_batches (λ (e : Edge). e.t) edge_batches []
    node_types ← type_entries vertex_props sample_size vertex_groups
    edge_types ← type_entries edge_props sample_size edge_groups
    notes ← build_notes vertex_groups
    ok (record {
      node_types = sort_types node_types;
      edge_types = sort_types edge_types;
      vertices = total node_types;
      edges = total edge_types;
      notes = notes;
    })

-- `_client`, by the host it is for.
abbrev pub Introspector : Type 0
Introspector = Option Text

-- The client is kept only if it answers the ping. What `_strip_scheme` raises passes as it is.
unfoldable pub connect : Indradb → Text → Introspector → Introspector × Result (Unit {0})
unfolding strip_scheme
connect indradb uri client =
    if not indradb.installed
    then (client, raise dependency_missing_error)
    else elim (strip_scheme indradb uri) [
      | raise e ↦ (client, raise e)
      | ok host ↦ elim (indradb.open_client host >>= λ _. indradb.ping host) [
        | raise e ↦ (client, raise db_unreachable_error)
        | ok _ ↦ (some host, ok tt)
      ]
    ]

-- `describe` asks for a connection first.
unfoldable pub describe_on : (Json → Text) → (Text → Client) → Introspector → ℕ → Result Description
unfolding describe
describe_on str client_of none sample_size = raise db_unreachable_error
describe_on str client_of (some host) sample_size = describe str (client_of host) sample_size

-- What the client's own `close` does or raises is suppressed.
unfoldable pub close : Introspector → Introspector
close client = none
