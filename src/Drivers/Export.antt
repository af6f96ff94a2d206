-- ===== src/Drivers/Export.antt =====
-- `export_file` of src/cpp_mcp/graphdb/exporter.py with a driver that keeps to the contract of
-- src/cpp_mcp/graphdb/driver.py.
pub mod Stored
use cpp_mcp.Base.{
  ℕ, ◌+◌, ◌≤◌, Text, String, List, [], ◌∷◌, Bool, true, false, not, ◌&&◌, ◌||◌, ◌≟◌, list_eq,
  nat_eq, string_eq, elem, map, length, if◌then◌else◌, ◌≡◌, inl, inr, refl, sym, ap, ◌∙◌, arith,
  All, All-map, Bool-cases, beq_refl, list_beq_iff, pair_eq,
}
use cpp_mcp.Errors.{ok}
use cpp_mcp.Exporter.Records.{NodeRecord, EdgeRecord, usrs}
use cpp_mcp.Exporter.Cursor.{Export, Cursor}
use cpp_mcp.Exporter.Walk.{extract_nodes_and_edges}
use cpp_mcp.Exporter.Walk.Closed.{leaves_file, IsLinked, Distinct}
use cpp_mcp.Exporter.Walk.Result.{extract_nodes_and_edges-IsLinked}
use cpp_mcp.Drivers.Action.{Action, ◌>>=◌, pure}
use cpp_mcp.Drivers.Contract.{
  Edge, Content, put_vertex, has_ends, put_edge, write_vertices, write_edges, Runs, Runs-bind,
  GraphDriver, edge_key, node_keys, KeepsContract,
}
use cpp_mcp.Drivers.Contract.Again.{
  write_vertices_lem, write_edges_lem, write_vertices_again, write_edges_again, All-elem,
}

pub record Exported : Type 0 where
  pub nodes_written : ℕ
  pub edges_written : ℕ
  pub nodes_attempted : ℕ
  pub edges_attempted : ℕ

unfoldable pub export_file : {S : Type 0} → GraphDriver S → Export → Cursor → Action S Exported
unfolding extract_nodes_and_edges
export_file driver env c = do
  let batch = extract_nodes_and_edges env c
  nodes_written ← driver.upsert_nodes batch.0
  edges_written ← driver.upsert_edges batch.1
  pure (record {
    nodes_written = nodes_written;
    edges_written = edges_written;
    nodes_attempted = length batch.0;
    edges_attempted = length batch.1;
  })

module _ {S : Type 0} (driver : GraphDriver S) (view : S → Content) (key : Text → Text)
    (contract : KeepsContract driver view key) (env : Export) (c : Cursor) where
  abbrev nodes : List NodeRecord
  nodes = (extract_nodes_and_edges env c).0

  abbrev edges : List EdgeRecord
  edges = (extract_nodes_and_edges env c).1

  abbrev written_nodes : Content → ℕ × Content
  written_nodes = write_vertices (node_keys key nodes) 0

  abbrev written_edges : Content → ℕ × Content
  written_edges d = write_edges (map (edge_key key) edges) 0 (written_nodes d).1

  abbrev counts : Content → Exported
  counts d = record {
    nodes_written = (written_nodes d).0;
    edges_written = (written_edges d).0;
    nodes_attempted = length nodes;
    edges_attempted = length edges;
  }

  export_file_lem :
      (s : S) → Runs view (export_file driver env c) s (counts (view s)) (written_edges (view s)).1
  unfolding export_file
  export_file_lem s =
      let first = written_nodes (view s) in
      let second = written_edges (view s) in
      Runs-bind view (driver.upsert_nodes nodes) _ s first.0 first.1 (counts (view s)) second.1
        (contract.nodes_law nodes s)
        (λ t same.
          Runs-bind view (driver.upsert_edges edges) _ t second.0 second.1 (counts (view s))
            second.1 (rw (← same) (contract.edges_law edges t)) (λ u seen. (u, refl, seen)))

  written_again :
      (d : Content)
      → (written_nodes (written_edges d).1 ≡ (0, (written_edges d).1))
        × (written_edges (written_edges d).1 ≡ (0, (written_edges d).1))
  written_again d =
      let es = map (edge_key key) edges in
      let before = (written_nodes d).1 in
      let after = (written_edges d).1 in
      let quiet =
        write_vertices_again (node_keys key nodes) 0 0 d after (write_edges_lem es 0 before).0 in
      (quiet, rw quiet (write_edges_again es 0 0 before))

  -- With a driver that keeps to the contract, a unit that is exported twice in a row is exported
  -- both times without an exception; the second time no node and no edge is counted as written, and the
  -- content of the database stays as the first time left it.
  pub export_file-again :
      (s : S)
      → (t u : S) × (first second : Exported) × (export_file driver env c s ≡ (t, ok first))
        × (export_file driver env c t ≡ (u, ok second))
        × (second.nodes_written ≡ 0)
        × (second.edges_written ≡ 0)
        × (view u ≡ view t)
  export_file-again s =
      let (t, ran, seen) = export_file_lem s in
      let (u, ran', seen') = export_file_lem t in
      let again = written_again (view s) in
      let quiet : (written_nodes (view t) ≡ (0, view t)) × (written_edges (view t) ≡ (0, view t)) =
        rw seen again in
      (
        t,
        u,
        counts (view s),
        counts (view t),
        ran,
        ran',
        ap (λ (w : ℕ × Content). w.0) quiet.0,
        ap (λ (w : ℕ × Content). w.0) quiet.1,
        seen' ∙ ap (λ (w : ℕ × Content). w.1) quiet.1,
      )
