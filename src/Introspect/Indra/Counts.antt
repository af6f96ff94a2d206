-- ===== src/Introspect/Indra/Counts.antt =====
-- What `describe` of src/cpp_mcp/graphdb/schema_introspector.py counts in an IndraDB database.
use cpp_mcp.Base.{
  ℕ, ◌+◌, Text, List, [], ◌∷◌, take, length, IsNodup, ◌≟◌, list_eq, nat_eq, if◌then◌else◌, ◌≡◌,
  refl, ap, ◌∙◌, subst,
}
use cpp_mcp.Errors.{Result, ok, >>=-eq-ok}
use cpp_mcp.Query.Indra.Payload.{Json}
use cpp_mcp.Query.Indra.Fetch.{
  Vertex, Edge, Props, Client, all_vertices, all_edges, flatten_results,
}
use cpp_mcp.Introspect.Entries.{Entry, total, sort_types, sorted_names}
use cpp_mcp.Introspect.Entries.Order.{
  IsSorted, names, count_for, sort-IsSorted, count_for-sort, sort-IsNodup,
}
use cpp_mcp.Introspect.Indra.{
  Description, type_entries, property_keys, group_batches, build_notes, describe, vertex_props,
  edge_props,
}
use cpp_mcp.Introspect.Indra.Groups.{
  keys, group_size, all_size, of_type_count, group_batches-Groups,
}

-- The entries of groups: their names, and as many items as the groups hold.
pub record EntriesOf {A : Type 0} (groups : List (Text × List A)) (entries : List Entry)
    : Type 0 where
  pub named : names entries ≡ keys groups
  pub counted : (name : Text) → count_for name entries ≡ group_size name groups
  pub summed : total entries ≡ all_size groups

type_entries-EntriesOf :
    {A : Type 0} (props_of : A → Result (List (List (A × Props)))) (sample_size : ℕ)
    (groups : List (Text × List A)) (entries : List Entry)
    → type_entries props_of sample_size groups ≡ ok entries
    → EntriesOf groups entries
unfolding type_entries count_for total group_size all_size
type_entries-EntriesOf props_of sample_size [] entries h =
    let none : entries ≡ [] = cc h in
    rw none (record { named = refl; counted = λ name. refl; summed = refl })
type_entries-EntriesOf props_of sample_size ((s, items) ∷ groups) entries h =
    let (found, _, rest) = >>=-eq-ok (property_keys props_of (take sample_size items) []) _ h in
    let (others, described, last) = >>=-eq-ok (type_entries props_of sample_size groups) _ rest in
    let ih = type_entries-EntriesOf props_of sample_size groups others described in
    let first : Entry = record {
      name = s;
      count = length items;
      property_keys = sorted_names found;
    } in
    let whole : first ∷ others ≡ entries = cc last in
    subst (EntriesOf ((s, items) ∷ groups)) whole (record {
      named = ap (λ (ns : List Text). s ∷ ns) ih.named;
      counted = λ name. ap (λ n. (if s ≟ name then length items else 0) + n) (ih.counted name);
      summed = ap (λ n. length items + n) ih.summed;
    })

-- The entries describe the items: the count of each type is that of the items of the type, no type has
-- two entries, the entries stand in order, and the total is the number of all items.
pub record Describes {A : Type 0} (type_of : A → Text) (items : List A) (entries : List Entry)
    (all_items : ℕ) : Type 0 where
  pub counts : (name : Text) → count_for name entries ≡ of_type_count type_of name items
  pub nodup : IsNodup (names entries)
  pub sorted : IsSorted entries
  pub whole : all_items ≡ length items

Describes-sorted :
    {A : Type 0} (type_of : A → Text) (batches : List (List A)) (entries : List Entry)
    → EntriesOf (group_batches type_of batches []) entries
    → Describes type_of (flatten_results batches) (sort_types entries) (total entries)
Describes-sorted type_of batches entries v =
    let g = group_batches-Groups type_of batches in
    record {
      counts = λ name. count_for-sort name entries ∙ v.counted name ∙ g.sizes name;
      nodup = sort-IsNodup entries (rw v.named g.nodup);
      sorted = sort-IsSorted entries;
      whole = v.summed ∙ g.whole;
    }

-- The description of an IndraDB database has for each type the number of its vertices or edges, one
-- entry for a type, the larger counts first and equal ones by name, and the totals of all vertices and
-- edges; whatever the size of the samples for the property keys is.
pub describe-Describes :
    (str : Json → Text) (client : Client) (sample_size : ℕ) (vertices : List (List Vertex))
    (edges : List (List Edge)) (d : Description)
    → client.get_vertices all_vertices ≡ ok vertices
    → client.get_edges all_edges ≡ ok edges
    → describe str client sample_size ≡ ok d
    → Describes (λ (v : Vertex). v.t) (flatten_results vertices) d.node_types d.vertices
      × Describes (λ (e : Edge). e.t) (flatten_results edges) d.edge_types d.edges
unfolding describe
describe-Describes str client sample_size vertices edges d got_vertices got_edges h =
    let (vs, gave_vertices, h1) = >>=-eq-ok (client.get_vertices all_vertices) _ h in
    let (es, gave_edges, h2) = >>=-eq-ok (client.get_edges all_edges) _ h1 in
    let vertex_groups = group_batches (λ (v : Vertex). v.t) vs [] in
    let edge_groups = group_batches (λ (e : Edge). e.t) es [] in
    let (node_types, nodes, h3) =
      >>=-eq-ok (type_entries (vertex_props str client) sample_size vertex_groups) _ h2 in
    let (edge_types, links, h4) =
      >>=-eq-ok (type_entries (edge_props str client) sample_size edge_groups) _ h3 in
    let (notes, _, last) = >>=-eq-ok (build_notes str client vertex_groups) _ h4 in
    let result : Description = record {
      node_types = sort_types node_types;
      edge_types = sort_types edge_types;
      vertices = total node_types;
      edges = total edge_types;
      notes = notes;
    } in
    let same : result ≡ d = cc last in
    let same_vertices : vs ≡ vertices = cc (gave_vertices, got_vertices) in
    let same_edges : es ≡ edges = cc (gave_edges, got_edges) in
    let of_nodes =
      Describes-sorted (λ (v : Vertex). v.t) vs node_types
        (type_entries-EntriesOf _ sample_size vertex_groups node_types nodes) in
    let of_edges =
      Describes-sorted (λ (e : Edge). e.t) es edge_types
        (type_entries-EntriesOf _ sample_size edge_groups edge_types links) in
    subst
      (λ (r : Description).
        Describes (λ (v : Vertex). v.t) (flatten_results vertices) r.node_types r.vertices
        × Describes (λ (e : Edge). e.t) (flatten_results edges) r.edge_types r.edges)
      same (rw (← same_vertices, ← same_edges) (of_nodes, of_edges))
