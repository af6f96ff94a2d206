-- ===== src/Drivers/Indra/Refines.antt =====
-- With a healthy service, the upserts of src/cpp_mcp/graphdb/indradb_driver.py keep to the contract of
-- src/cpp_mcp/graphdb/driver.py.
use cpp_mcp.Base.{
  ℕ, ◌+◌, Text, String, List, [], ◌∷◌, some, Bool, true, false, ◌||◌, list_eq, nat_eq, string_eq,
  map, if◌then◌else◌, ◌≡◌, inl, inr, refl, sym, ap, ◌∙◌, Bool-cases, beq_refl, pair_eq,
}
use cpp_mcp.Errors.{ok}
use cpp_mcp.Exporter.Records.{NodeRecord, EdgeRecord}
use cpp_mcp.Drivers.Action.{Action, pure, for_each}
use cpp_mcp.Drivers.Contract.{
  Edge, Content, put_vertex, has_ends, put_edge, write_vertices, write_edges, edge_key, node_keys,
  put_vertex_again, put_edge_again, Runs, Runs-bind, Runs-read, GraphDriver, KeepsContract,
}
use cpp_mcp.Drivers.Items.{label_name, Scalar, Item, normalise_prop, props_with_usr, edge_items}
use cpp_mcp.Drivers.Indra.{
  Client, vertex_counted, upsert_node, upsert_nodes_from, edge_counted, upsert_edge,
  upsert_edges_from, Driver, upsert_nodes, upsert_edges,
}

-- A service that answers every call: a `get` tells what is stored, a new vertex is stored, a new edge is
-- stored if both of its ends are and dropped silently otherwise, a property changes no vertex or edge.
pub record Healthy {S : Type 0} (client : Client S) (view : S → Content) : Type 0 where
  pub got_vertex : (v : Text) (s : S) → client.get_vertex v s ≡ (s, ok ((view s).vertices v))
  pub created_vertex :
      (v : Text) (label : String) (s : S)
      → Runs view (client.create_vertex v label) s tt (put_vertex v (view s))
  pub vertex_property :
      (v : Text) (key : String) (value : Scalar) (s : S)
      → Runs view (client.set_vertex_property v key value) s tt (view s)
  pub got_edge : (e : Edge) (s : S) → client.get_edge e s ≡ (s, ok ((view s).edges e))
  pub created_edge :
      (e : Edge) (s : S) → Runs view (client.create_edge e) s tt (put_edge e (view s))
  pub edge_property :
      (e : Edge) (key : String) (value : Scalar) (s : S)
      → Runs view (client.set_edge_property e key value) s tt (view s)

Runs-for_each :
    {S A : Type 0} (view : S → Content) (f : A → Action S (Unit {0}))
    → ((x : A) (s : S) → Runs view (f x) s tt (view s))
    → (xs : List A) (s : S) → Runs view (for_each f xs) s tt (view s)
Runs-for_each view f calm [] s = (s, refl, refl)
Runs-for_each view f calm (x ∷ xs) s =
    Runs-bind view (f x) (λ _. for_each f xs) s tt (view s) tt (view s) (calm x s)
      (λ t same. rw (← same) (Runs-for_each view f calm xs t))

or_false : (b : Bool) → (b || false) ≡ b
or_false true = refl
or_false false = refl

module _ {S : Type 0} (client : Client S) (view : S → Content) (h : Healthy client view) where
  vertex_counted_lem :
      (v : Text) (label : String) (k : ℕ) (s : S)
      → Runs view
          (vertex_counted client v label k ((view s).vertices v))
          s
          (if (view s).vertices v then k else k + 1)
          (put_vertex v (view s))
  vertex_counted_lem v label k s = elim (Bool-cases ((view s).vertices v)) [
    | inl there ↦ rw there (s, refl, sym (put_vertex_again v (view s) there))
    | inr new ↦ let (t, ran, seen) = h.created_vertex v label s in rw new (t, rw ran refl, seen)
  ]

  upsert_node_lem :
      (n : NodeRecord) (k : ℕ) (s : S)
      → Runs view
          (upsert_node client n k)
          s
          (if (view s).vertices (client.uuid5 n.usr) then k else k + 1)
          (put_vertex (client.uuid5 n.usr) (view s))
  unfolding upsert_node
  upsert_node_lem n k s =
      let v = client.uuid5 n.usr in
      let count = if (view s).vertices v then k else k + 1 in
      let after = put_vertex v (view s) in
      let setter : Item → Action S (Unit {0}) =
        λ item. client.set_vertex_property v item.0 (normalise_prop item.1) in
      Runs-read view (client.get_vertex v) _ s ((view s).vertices v) count after (h.got_vertex v s)
        (Runs-bind view (vertex_counted client v (label_name n.label) k ((view s).vertices v)) _ s
          count after count after (vertex_counted_lem v (label_name n.label) k s)
          (λ t same. rw (← same) (
            Runs-bind view (for_each setter (props_with_usr n)) (λ _. pure count) t tt (view t)
              count (view t)
              (Runs-for_each view setter
                (λ item u. h.vertex_property v item.0 (normalise_prop item.1) u) (props_with_usr n)
                t)
              (λ u eq. (u, refl, eq)))))

  upsert_nodes_lem :
      (batch : List NodeRecord) (k : ℕ) (s : S)
      → let w = write_vertices (node_keys client.uuid5 batch) k (view s) in
        Runs view (upsert_nodes_from client batch k) s w.0 w.1
  unfolding upsert_nodes_from
  upsert_nodes_lem [] k s = (s, refl, refl)
  upsert_nodes_lem (n ∷ batch) k s =
      let v = client.uuid5 n.usr in
      let count = if (view s).vertices v then k else k + 1 in
      let after = put_vertex v (view s) in
      let w = write_vertices (node_keys client.uuid5 batch) count after in
      Runs-bind view (upsert_node client n k) (upsert_nodes_from client batch) s count after w.0 w.1
        (upsert_node_lem n k s) (λ t same. rw (← same) (upsert_nodes_lem batch count t))

  stored_lem : (e : Edge) (c : Content) → c.edges e ≡ false → (put_edge e c).edges e ≡ has_ends e c
  stored_lem e c new = rw (beq_refl e, new) (or_false (has_ends e c))

  edge_counted_lem :
      (e : Edge) (k : ℕ) (s : S)
      → Runs view
          (edge_counted client e k ((view s).edges e))
          s
          (if (view s).edges e then k else if has_ends e (view s) then k + 1 else k)
          (put_edge e (view s))
  edge_counted_lem e k s = elim (Bool-cases ((view s).edges e)) [
    | inl there ↦ rw there (s, refl, sym (put_edge_again e (view s) (rw there refl)))
    | inr new ↦
        let c = view s in
        let (t, ran, seen) = h.created_edge e s in
        let found : (view t).edges e ≡ has_ends e c =
          ap (λ (d : Content). d.edges e) seen ∙ stored_lem e c new in
        rw new (t, rw (ran, h.got_edge e t, found) refl, seen)
  ]

  upsert_edge_lem :
      (r : EdgeRecord) (k : ℕ) (s : S)
      → let e = edge_key client.uuid5 r in
        Runs view
          (upsert_edge client r k)
          s
          (if (view s).edges e then k else if has_ends e (view s) then k + 1 else k)
          (put_edge e (view s))
  unfolding upsert_edge
  upsert_edge_lem r k s =
      let e = edge_key client.uuid5 r in
      let count = if (view s).edges e then k else if has_ends e (view s) then k + 1 else k in
      let after = put_edge e (view s) in
      let setter : Item → Action S (Unit {0}) =
        λ item. client.set_edge_property e item.0 (normalise_prop item.1) in
      Runs-read view (client.get_edge e) _ s ((view s).edges e) count after (h.got_edge e s) (
        Runs-bind view (edge_counted client e k ((view s).edges e)) _ s count after count after
          (edge_counted_lem e k s)
          (λ t same. rw (← same) (
            Runs-bind view (for_each setter (edge_items r.props)) (λ _. pure count) t tt (view t)
              count (view t)
              (Runs-for_each view setter
                (λ item u. h.edge_property e item.0 (normalise_prop item.1) u) (edge_items r.props)
                t)
              (λ u eq. (u, refl, eq)))))

  upsert_edges_lem :
      (batch : List EdgeRecord) (k : ℕ) (s : S)
      → let w = write_edges (map (edge_key client.uuid5) batch) k (view s) in
        Runs view (upsert_edges_from client batch k) s w.0 w.1
  unfolding upsert_edges_from
  upsert_edges_lem [] k s = (s, refl, refl)
  upsert_edges_lem (r ∷ batch) k s =
      let e = edge_key client.uuid5 r in
      let count = if (view s).edges e then k else if has_ends e (view s) then k + 1 else k in
      let after = put_edge e (view s) in
      let w = write_edges (map (edge_key client.uuid5) batch) count after in
      Runs-bind view (upsert_edge client r k) (upsert_edges_from client batch) s count after w.0 w.1
        (upsert_edge_lem r k s) (λ t same. rw (← same) (upsert_edges_lem batch count t))

-- The driver with an open client.
abbrev pub driver_of : {S : Type 0} → (Text → Client S) → Driver → GraphDriver S
driver_of client_of d = record {
  upsert_nodes = upsert_nodes client_of d;
  upsert_edges = upsert_edges client_of d;
}

-- With a healthy service and an open client the driver keeps to the contract: for any batch, an
-- upsert ends without an exception, it leaves every vertex and every edge with stored ends of the batch
-- in the content besides what was there, and it answers how many of them came new.
pub upsert-KeepsContract :
    {S : Type 0} (client_of : Text → Client S) (view : S → Content) (host : Text) (d : Driver)
    → Healthy (client_of host) view
    → d.client ≡ some host
    → KeepsContract (driver_of client_of d) view (client_of host).uuid5
unfolding upsert_nodes upsert_edges
upsert-KeepsContract client_of view host d h is_open = record {
  nodes_law =
      λ batch s. rw (upsert_nodes, is_open) (upsert_nodes_lem (client_of host) view h batch 0 s);
  edges_law =
      λ batch s. rw (upsert_edges, is_open) (upsert_edges_lem (client_of host) view h batch 0 s);
}
