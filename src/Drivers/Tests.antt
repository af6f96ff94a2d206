-- ===== src/Drivers/Tests.antt =====
-- The drivers of src/cpp_mcp/graphdb on a service in memory, and the theorems at it.
use cpp_mcp.Base.{
  ℕ, ◌+◌, List, [], ◌∷◌, none, some, true, false, ◌||◌, ◌≡◌, refl, codes, decimal, All,
}
use cpp_mcp.OrderedDict.{get, set_item}
use cpp_mcp.Errors.{Result, ok, raise, db_unreachable_error, value_error}
use cpp_mcp.Exporter.Records.{NodeRecord, EdgeRecord}
use cpp_mcp.Exporter.Walk.{extract_nodes_and_edges}
use cpp_mcp.Exporter.Walk.Closed.{leaves_file}
use cpp_mcp.Exporter.Walk.Sample.{unit, root, walked}
use cpp_mcp.Drivers.Contract.{Content, KeepsContract, edge_key}
use cpp_mcp.Drivers.Items.{
  normalise_prop, structured, scalar, text, flag, label_name, edge_name, node_items, edge_items,
  props_with_usr,
}
use cpp_mcp.Drivers.Indra.{
  Indradb, init, connect, strip_scheme, close, upsert_nodes, upsert_nodes_from, upsert_node,
  upsert_edges, upsert_edges_from, upsert_edge,
}
use cpp_mcp.Drivers.Indra.Refines.{upsert-KeepsContract, driver_of}
use cpp_mcp.Drivers.Select.{select_driver}
use cpp_mcp.Query.Tool.{indradb}
use cpp_mcp.Drivers.Export.{Exported, export_file, export_file-again}
use cpp_mcp.Drivers.Export.Stored.{export_file-stores}
use cpp_mcp.Drivers.Neo4j
use cpp_mcp.Drivers.Neo4j.{
  Parameters, node_parameters, edge_parameters, Counters, Service, tx_nodes, tx_edges, merge_node,
  merge_edge,
}
use cpp_mcp.Drivers.Memory.{
  client, same, client-Healthy, connected, driver, driver-KeepsContract, empty,
}

program : Unit {0}
unfolding normalise_prop connect strip_scheme close upsert_nodes upsert_nodes_from upsert_node
    upsert_edges upsert_edges_from upsert_edge props_with_usr node_items edge_items set_item
    label_name edge_name select_driver decimal Neo4j.upsert_nodes Neo4j.upsert_edges tx_nodes
    tx_edges merge_node merge_edge get
program = tt

-- A package whose service answers no ping.
abbrev silent : Indradb
silent = record {
  installed = true;
  hostname = λ uri. ok none;
  port = λ uri. ok (some 0);
  open_client = λ host. ok tt;
  ping = λ host. raise value_error;
}

-- The client of a service that answers no ping is kept, and closing lets it go for good.
answered :
    (normalise_prop (structured (some (codes "[1]")) (codes "(1,)")) ≡ text (codes "[1]"))
    × (normalise_prop (scalar (flag true)) ≡ flag true)
    × (connect silent (codes "grpc://") init ≡ (
      record { client = some (codes "localhost:27615"); closed = false },
      raise db_unreachable_error,
    ))
    × (close (close connected) ≡ record { client = none; closed = true })
    × (select_driver (λ uri. ok (codes "grpc")) (codes "grpc://h") ≡ ok indradb)
unfolding program
answered = (refl, refl, refl, refl, refl)

upsert-KeepsContract_example :
    KeepsContract (driver_of (λ host. client) connected) same (λ usr. usr)
upsert-KeepsContract_example =
    upsert-KeepsContract (λ host. client) same (codes "localhost:27615") connected client-Healthy
      refl

export_file-again_example :
    (t u : Content) × (first second : Exported) × (export_file driver unit root empty
      ≡ (t, ok first))
    × (export_file driver unit root t ≡ (u, ok second))
    × (second.nodes_written ≡ 0)
    × (second.edges_written ≡ 0)
    × (u ≡ t)
export_file-again_example =
    export_file-again driver same (λ usr. usr) driver-KeepsContract unit root empty

export_file-stores_example :
    (t : Content) × (r : Exported) × (export_file driver unit root empty ≡ (t, ok r))
    × All (λ (n : NodeRecord). t.vertices n.usr ≡ true) (extract_nodes_and_edges unit root).0
    × All
        (λ (e : EdgeRecord). (leaves_file e.edge_type || t.edges (edge_key (λ usr. usr) e)) ≡ true)
        (extract_nodes_and_edges unit root).1
export_file-stores_example =
    export_file-stores driver same (λ usr. usr) driver-KeepsContract unit root empty

nothing_stored : (ns : List NodeRecord) → All (λ (n : NodeRecord). empty.vertices n.usr ≡ false) ns
nothing_stored [] = tt
nothing_stored (n ∷ ns) = (refl, nothing_stored ns)

-- A service of Neo4j that counts its nodes and is gone when the edges come.
abbrev counted : ℕ → Parameters → ℕ × Result Counters
counted s (node_parameters usr props) =
    (s + 1, ok (record { nodes_created = 1; relationships_created = 0 }))
counted s (edge_parameters source target props) = (s, raise db_unreachable_error)

abbrev rolled_back : ℕ → ℕ × Result ℕ → ℕ × Result ℕ
rolled_back s (t, ok n) = (t, ok n)
rolled_back s (t, raise e) = (s, raise e)

abbrev service : Service ℕ
service = record {
  run = λ text parameters s. counted s parameters;
  execute_write = λ f s. rolled_back s (f s);
}

-- A service that is gone when the edges come keeps the nodes: the two upserts are two transactions.
nodes_stay :
    export_file (Neo4j.driver_of (λ uri. service) (some [])) unit root 0
    ≡ (6, raise db_unreachable_error)
unfolding walked program export_file
nodes_stay = refl
