-- ===== src/Drivers/Neo4j.antt =====
-- `Neo4jDriver` of src/cpp_mcp/graphdb/neo4j_driver.py. The `neo4j` package and the service behind it are
-- parameters.
use cpp_mcp.Base.{
  ℕ, ◌+◌, Text, List, [], ◌∷◌, ◌++◌, Option, none, some, Bool, not, codes, if◌then◌else◌,
}
use cpp_mcp.Errors.{Result, ok, raise, dependency_missing_error, db_unreachable_error}
use cpp_mcp.Exporter.Records.{NodeRecord, EdgeRecord}
use cpp_mcp.Drivers.Action.{Action, pure, ◌>>=◌}
use cpp_mcp.Drivers.Contract.{GraphDriver}
use cpp_mcp.Drivers.Items.{label_name, edge_name, Item, props_with_usr, edge_items}

-- What a statement is run with.
pub data Parameters : Type 0 where
  node_parameters : Text → List Item → Parameters
  edge_parameters : Text → Text → List Item → Parameters

pub record Counters : Type 0 where
  pub nodes_created : ℕ
  pub relationships_created : ℕ

-- `tx.run(...)` with the counters of its consumed summary, and `session.execute_write` of a function of
-- the transaction, in a session of its own. Every call may raise.
pub record Service (S : Type 0) : Type 0 where
  pub run : Text → Parameters → Action S Counters
  pub execute_write : Action S ℕ → Action S ℕ

unfoldable pub merge_node : NodeRecord → Text
unfolding label_name
merge_node n =
    codes "MERGE (n:`" ++ codes (label_name n.label) ++ codes "` {usr: $usr}) SET n += $props"

unfoldable pub merge_edge : EdgeRecord → Text
unfolding edge_name
merge_edge e =
    codes "MATCH (a {usr: $src}), (b {usr: $tgt}) MERGE (a)-[r:`"
    ++ codes (edge_name e.edge_type)
    ++ codes "`]->(b) SET r += $props"

module _ {S : Type 0} (service : Service S) where
  unfoldable pub tx_nodes : List NodeRecord → ℕ → Action S ℕ
  unfolding merge_node props_with_usr
  tx_nodes [] written = pure written
  tx_nodes (n ∷ records) written = do
    counters ← service.run (merge_node n) (node_parameters n.usr (props_with_usr n))
    tx_nodes records (written + counters.nodes_created)

  unfoldable pub tx_edges : List EdgeRecord → ℕ → Action S ℕ
  unfolding merge_edge edge_items
  tx_edges [] written = pure written
  tx_edges (e ∷ records) written = do
    counters ←
        service.run (merge_edge e) (edge_parameters e.source_usr e.target_usr (edge_items e.props))
    tx_edges records (written + counters.relationships_created)

-- `_driver`, by the URI that it is for.
abbrev pub Driver : Type 0
Driver = Option Text

module _ {S : Type 0} (service_of : Text → Service S) where
  -- Without a driver, or without a record, nothing is written.
  unfoldable pub upsert_nodes : Driver → List NodeRecord → Action S ℕ
  unfolding tx_nodes
  upsert_nodes none batch = pure 0
  upsert_nodes (some uri) [] = pure 0
  upsert_nodes (some uri) (n ∷ batch) =
      (service_of uri).execute_write (tx_nodes (service_of uri) (n ∷ batch) 0)

  unfoldable pub upsert_edges : Driver → List EdgeRecord → Action S ℕ
  unfolding tx_edges
  upsert_edges none batch = pure 0
  upsert_edges (some uri) [] = pure 0
  upsert_edges (some uri) (e ∷ batch) =
      (service_of uri).execute_write (tx_edges (service_of uri) (e ∷ batch) 0)

  abbrev pub driver_of : Driver → GraphDriver S
  driver_of d = record { upsert_nodes = upsert_nodes d; upsert_edges = upsert_edges d }

-- The package: whether it can be imported, and what `GraphDatabase.driver(...)` and
-- `verify_connectivity()` do.
pub record Neo4j : Type 0 where
  pub installed : Bool
  pub create : Text → Result (Unit {0})
  pub verify_connectivity : Text → Result (Unit {0})

abbrev verified : Text → Driver → Result (Unit {0}) → Driver × Result (Unit {0})
verified uri d (ok u) = (some uri, ok tt)
verified uri d (raise e) = (d, raise db_unreachable_error)

-- The driver is kept once it is verified.
unfoldable pub connect : Neo4j → Text → Driver → Driver × Result (Unit {0})
connect neo4j uri d =
    if not neo4j.installed then (d, raise dependency_missing_error) else elim (neo4j.create uri) [
      | raise e ↦ (d, raise db_unreachable_error)
      | ok _ ↦ verified uri d (neo4j.verify_connectivity uri)
    ]

-- What the driver's own `close` raises is suppressed.
abbrev pub close : Driver → Driver
close d = none
