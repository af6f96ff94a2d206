-- ===== src/Drivers/Indra.antt =====
-- `IndraDBDriver` of src/cpp_mcp/graphdb/indradb_driver.py. The `indradb` package and the service behind it
-- are parameters.
pub mod Refines
use cpp_mcp.Base.{
  ℕ, zero, suc, not, ◌+◌, Text, String, List, [], ◌∷◌, ◌++◌, Option, none, some, Bool, true, false,
  codes, decimal, if◌then◌else◌,
}
use cpp_mcp.Errors.{
  ExceptionType, Result, ok, raise, dependency_missing_error, db_unreachable_error,
}
use cpp_mcp.Exporter.Records.{NodeRecord, EdgeRecord}
use cpp_mcp.Drivers.Action.{Action, pure, ◌>>=◌, ◌>>◌, for_each}
use cpp_mcp.Drivers.Contract.{Edge, edge_key}
use cpp_mcp.Drivers.Items.{label_name, Scalar, Item, normalise_prop, props_with_usr, edge_items}

-- The calls on an open client, whose state is that of the service. `get` of a specific vertex or edge
-- says whether an item came. Every call may raise. A vertex id is `uuid5(NS_CPPMCP_USR, usr)`.
pub record Client (S : Type 0) : Type 0 where
  pub uuid5 : Text → Text
  pub get_vertex : Text → Action S Bool
  pub create_vertex : Text → String → Action S (Unit {0})
  pub set_vertex_property : Text → String → Scalar → Action S (Unit {0})
  pub get_edge : Edge → Action S Bool
  pub create_edge : Edge → Action S (Unit {0})
  pub set_edge_property : Edge → String → Scalar → Action S (Unit {0})

module _ {S : Type 0} (client : Client S) where
  -- Create the vertex unless it is there; the counter after it.
  abbrev pub vertex_counted : Text → String → ℕ → Bool → Action S ℕ
  vertex_counted vid label inserted true = pure inserted
  vertex_counted vid label inserted false = do client.create_vertex vid label; pure (inserted + 1)

  unfoldable pub upsert_node : NodeRecord → ℕ → Action S ℕ
  unfolding label_name normalise_prop props_with_usr
  upsert_node n inserted = do
    let vid = client.uuid5 n.usr
    existing ← client.get_vertex vid
    counted ← vertex_counted vid (label_name n.label) inserted existing
    for_each (λ (item : Item). client.set_vertex_property vid item.0 (normalise_prop item.1))
        (props_with_usr n)
    pure counted

  unfoldable pub upsert_nodes_from : List NodeRecord → ℕ → Action S ℕ
  unfolding upsert_node
  upsert_nodes_from [] inserted = pure inserted
  upsert_nodes_from (n ∷ batch) inserted = do
    counted ← upsert_node n inserted
    upsert_nodes_from batch counted

  -- Create the edge unless it is there, and count it only if it is stored then.
  abbrev pub edge_counted : Edge → ℕ → Bool → Action S ℕ
  edge_counted edge inserted true = pure inserted
  edge_counted edge inserted false = do
    client.create_edge edge
    stored ← client.get_edge edge
    pure (if stored then inserted + 1 else inserted)

  unfoldable pub upsert_edge : EdgeRecord → ℕ → Action S ℕ
  unfolding normalise_prop edge_items
  upsert_edge e inserted = do
    let edge = edge_key client.uuid5 e
    existing ← client.get_edge edge
    counted ← edge_counted edge inserted existing
    for_each (λ (item : Item). client.set_edge_property edge item.0 (normalise_prop item.1))
        (edge_items e.props)
    pure counted

  unfoldable pub upsert_edges_from : List EdgeRecord → ℕ → Action S ℕ
  unfolding upsert_edge
  upsert_edges_from [] inserted = pure inserted
  upsert_edges_from (e ∷ batch) inserted = do
    counted ← upsert_edge e inserted
    upsert_edges_from batch counted

-- `_client`, by the host it is for, and `_closed`.
pub record Driver : Type 0 where
  pub client : Option Text
  pub closed : Bool

abbrev pub init : Driver
init = record { client = none; closed = false }

module _ {S : Type 0} (client_of : Text → Client S) where
  -- Without a client, nothing is written.
  unfoldable pub upsert_nodes : Driver → List NodeRecord → Action S ℕ
  unfolding upsert_nodes_from
  upsert_nodes d batch = elim d.client [
    | none ↦ pure 0
    | some host ↦ upsert_nodes_from (client_of host) batch 0
  ]

  unfoldable pub upsert_edges : Driver → List EdgeRecord → Action S ℕ
  unfolding upsert_edges_from
  upsert_edges d batch = elim d.client [
    | none ↦ pure 0
    | some host ↦ upsert_edges_from (client_of host) batch 0
  ]

-- The package: whether it can be imported, `urlparse` of a URI, whose port may raise, and what
-- `Client(...)` and `ping()` do.
pub record Indradb : Type 0 where
  pub installed : Bool
  pub hostname : Text → Result (Option Text)
  pub port : Text → Result (Option ℕ)
  pub open_client : Text → Result (Unit {0})
  pub ping : Text → Result (Unit {0})

abbrev default_port : ℕ
default_port = 27615

abbrev or_localhost : Option Text → Text
or_localhost none = codes "localhost"
or_localhost (some []) = codes "localhost"
or_localhost (some (c ∷ s)) = c ∷ s

abbrev or_default : Option ℕ → ℕ
or_default none = default_port
or_default (some zero) = default_port
or_default (some (suc n)) = suc n

unfoldable pub strip_scheme : Indradb → Text → Result Text
strip_scheme indradb uri = elim (indradb.hostname uri) [
  | raise e ↦ raise e
  | ok host ↦ elim (indradb.port uri) [
    | raise e ↦ raise e
    | ok port ↦ ok (or_localhost host ++ codes ":" ++ decimal (or_default port))
  ]
]

-- What `_strip_scheme` raises passes as it is; the client is kept before it is asked for a ping.
unfoldable pub connect : Indradb → Text → Driver → Driver × Result (Unit {0})
unfolding strip_scheme
connect indradb uri d =
    if not indradb.installed
    then (d, raise dependency_missing_error)
    else elim (strip_scheme indradb uri) [
      | raise e ↦ (d, raise e)
      | ok host ↦ elim (indradb.open_client host) [
        | raise e ↦ (d, raise db_unreachable_error)
        | ok _ ↦ (
          record d { client = some host },
          elim (indradb.ping host) [ raise e ↦ raise db_unreachable_error | ok _ ↦ ok tt ],
        )
      ]
    ]

-- What the client's own `close` does or raises is suppressed.
unfoldable pub close : Driver → Driver
close d = if d.closed then d else record { client = none; closed = true }
