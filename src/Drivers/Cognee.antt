-- ===== src/Drivers/Cognee.antt =====
-- `CogneeDriver` and `CliCogneeTransport` of src/cpp_mcp/graphdb/cognee_driver.py. The transport, the CLI and
-- the SHA-256 digest are parameters.
pub mod Index
mod Tests
use cpp_mcp.Base.{
  ℕ, zero, suc, ℤ, pos, negsuc, ◌+◌, ◌==◌, Text, String, List, [], ◌∷◌, ◌++◌, Option, none, some,
  Bool, true, false, take, codes, elem, map, ◌≟◌, Eq, list_eq, nat_eq, string_eq, pair_eq,
  if◌then◌else◌,
}
use cpp_mcp.OrderedDict.{get, set_item}
use cpp_mcp.Errors.{ExceptionType, Result, ok, raise, db_unreachable_error}
use cpp_mcp.Exporter.Records.{NodeRecord, EdgeRecord}
use cpp_mcp.Drivers.Action.{Action, ◌>>=◌, pure}
use cpp_mcp.Drivers.Items.{label_name, edge_name, Item, text_item, node_items, edge_items}

-- `(source_usr, edge_type, target_usr)`
abbrev pub Triple : Type 0
Triple = Text × (String × Text)

abbrev pub triple_of : EdgeRecord → Triple
triple_of e = (e.source_usr, (edge_name e.edge_type, e.target_usr))

-- `_transport` is a parameter of the methods.
pub record Session : Type 0 where
  pub dataset : Text
  pub node_set : List Text
  pub connected : Bool
  pub node_index : List (Text × NodeRecord)
  pub edge_index : List (Triple × EdgeRecord)

abbrev pub init : Session
init = record { dataset = []; node_set = []; connected = false; node_index = []; edge_index = [] }

-- What `urlparse` gives of a URI.
pub record Url : Type 0 where
  pub scheme : Text
  pub netloc : Text
  pub path : Text

-- `path.lstrip("/")`
unfoldable pub strip_slashes : Text → Text
strip_slashes [] = []
strip_slashes (c ∷ s) = let rest = strip_slashes s in if c == b'/' then rest else c ∷ s

unfoldable pub dataset_of : Url → Text
unfolding strip_slashes
dataset_of url = elim url.netloc [ [] ↦ strip_slashes url.path | c ∷ s ↦ c ∷ s ]

unfoldable pub connect : Url → List Text → Session → Session × Result (Unit {0})
unfolding dataset_of
connect url node_set session =
    if url.scheme ≟ codes "cognee"
    then (elim (dataset_of url) [
      | [] ↦ (session, raise db_unreachable_error)
      | c ∷ s ↦ (
        record {
          dataset = c ∷ s;
          node_set = node_set;
          connected = true;
          node_index = [];
          edge_index = [];
        },
        ok tt,
      )
    ])
    else (session, raise db_unreachable_error)

unfoldable pub close : Session → Session
close session = init

-- A dict display: the items are set in their order, so that a later key takes the place of an earlier one.
unfoldable pub set_items : List Item → List Item → List Item
unfolding set_item
set_items [] fields = fields
set_items ((key, value) ∷ items) fields = set_items items (set_item key value fields)

unfoldable pub node_document : NodeRecord → List Item
unfolding set_items node_items label_name
node_document n = set_items (node_items n.props) (
    text_item "kind" (codes "node")
    ∷ text_item "label" (codes (label_name n.label))
    ∷ text_item "usr" n.usr
    ∷ [])

unfoldable pub edge_document : EdgeRecord → List Item
unfolding set_items edge_items edge_name
edge_document e = set_items (edge_items e.props) (
    text_item "kind" (codes "edge")
    ∷ text_item "source_usr" e.source_usr
    ∷ text_item "edge_type" (codes (edge_name e.edge_type))
    ∷ text_item "target_usr" e.target_usr
    ∷ [])

abbrev pub has_key {ℓ} : {K V : Type ℓ} ⦃e : Eq K⦄ → K → List (K × V) → Bool
has_key k index = elim (get k index) [ none ↦ false | some v ↦ true ]

-- `transport.ingest(key, payload, dataset, node_set)` on the state of the service.
abbrev pub Transport : Type 0 → Type 0
Transport S = Text → List Item → Text → List Text → Action S (Unit {0})

module _ {S : Type 0} (sha256 : Text → Text) (ingest : Transport S) where
  unfoldable pub node_key : Text → Text
  node_key usr = codes "node:" ++ take 16 (sha256 usr)

  unfoldable pub edge_key : Triple → Text
  edge_key (source, (label, target)) =
      codes "edge:" ++ take 16 (sha256 (source ++ zero ∷ codes label ++ zero ∷ target))

  -- A call of the transport leaves the session as it is.
  abbrev lifted : Action S (Unit {0}) → Action (Session × S) (Unit {0})
  lifted m (session, s) = let (s', r) = m s in ((session, s'), r)

  abbrev send_node : NodeRecord → Action (Session × S) (Unit {0})
  send_node n (session, s) =
      lifted (ingest (node_key n.usr) (node_document n) session.dataset session.node_set)
        (session, s)

  abbrev send_edge : EdgeRecord → Action (Session × S) (Unit {0})
  send_edge e (session, s) =
      lifted (ingest (edge_key (triple_of e)) (edge_document e) session.dataset session.node_set)
        (session, s)

  -- The record is put into the index before it is sent.
  abbrev index_node : NodeRecord → Action (Session × S) (Unit {0})
  index_node n (session, s) =
      ((record session { node_index = set_item n.usr n session.node_index }, s), ok tt)

  abbrev index_edge : EdgeRecord → Action (Session × S) (Unit {0})
  index_edge e (session, s) =
      ((record session { edge_index = set_item (triple_of e) e session.edge_index }, s), ok tt)

  abbrev known_node : NodeRecord → Action (Session × S) Bool
  known_node n (session, s) = ((session, s), ok (has_key n.usr session.node_index))

  abbrev known_edge : EdgeRecord → Action (Session × S) Bool
  known_edge e (session, s) = ((session, s), ok (has_key (triple_of e) session.edge_index))

  abbrev count_new : Bool → ℕ → ℕ
  count_new known new_count = if known then new_count else new_count + 1

  unfoldable pub upsert_node : NodeRecord → ℕ → Action (Session × S) ℕ
  unfolding node_key node_document get set_item
  upsert_node n new_count = do
    known ← known_node n
    _ ← index_node n
    _ ← send_node n
    pure (count_new known new_count)

  unfoldable pub upsert_nodes_from : List NodeRecord → ℕ → Action (Session × S) ℕ
  unfolding upsert_node
  upsert_nodes_from [] new_count = pure new_count
  upsert_nodes_from (n ∷ batch) new_count = do
    counted ← upsert_node n new_count
    upsert_nodes_from batch counted

  -- Without a connection, nothing is done.
  unfoldable pub upsert_nodes : List NodeRecord → Action (Session × S) ℕ
  unfolding upsert_nodes_from
  upsert_nodes batch (session, s) =
      if session.connected then upsert_nodes_from batch 0 (session, s) else ((session, s), ok 0)

  unfoldable pub upsert_edge : EdgeRecord → ℕ → Action (Session × S) ℕ
  unfolding edge_key edge_document get set_item
  upsert_edge e new_count = do
    known ← known_edge e
    _ ← index_edge e
    _ ← send_edge e
    pure (count_new known new_count)

  unfoldable pub upsert_edges_from : List EdgeRecord → ℕ → Action (Session × S) ℕ
  unfolding upsert_edge
  upsert_edges_from [] new_count = pure new_count
  upsert_edges_from (e ∷ batch) new_count = do
    counted ← upsert_edge e new_count
    upsert_edges_from batch counted

  unfoldable pub upsert_edges : List EdgeRecord → Action (Session × S) ℕ
  unfolding upsert_edges_from
  upsert_edges batch (session, s) =
      if session.connected then upsert_edges_from batch 0 (session, s) else ((session, s), ok 0)

-- How the run of the CLI ends: without the CLI, too late, by another exception, or with a code.
pub data Run : Type 0 where
  cli_not_found timed_out : Run
  failed : ExceptionType → Run
  finished : ℤ → Run

-- A temporary file with a text, the run of the CLI on a file, and the removal of a file, whose failure is
-- suppressed.
pub record Shell (S : Type 0) : Type 0 where
  pub write_temporary : Text → Action S Text
  pub request : Text → S → S × Run
  pub unlink : Text → S → S

-- `json.dumps` of the body.
abbrev pub Dumps : Type 0
Dumps = Text → List Item → Text → List Text → Text

abbrev outcome : Run → Result (Unit {0})
outcome cli_not_found = raise db_unreachable_error
outcome timed_out = raise db_unreachable_error
outcome (failed e) = raise e
outcome (finished (pos zero)) = ok tt
outcome (finished (pos (suc code))) = raise db_unreachable_error
outcome (finished (negsuc code)) = raise db_unreachable_error

-- `CliCogneeTransport.ingest`: the file goes whatever the run does.
unfoldable pub cli_ingest : {S : Type 0} → Shell S → Dumps → Transport S
cli_ingest {S} shell dumps key payload dataset node_set =
    shell.write_temporary (dumps key payload dataset node_set) >>= posted
  where
    posted : Text → Action S (Unit {0})
    posted path s = let (s', run) = shell.request path s in (shell.unlink path s', outcome run)
