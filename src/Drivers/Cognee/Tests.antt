-- ===== src/Drivers/Cognee/Tests.antt =====
-- The driver of src/cpp_mcp/graphdb/cognee_driver.py over a transport that logs its calls.
use cpp_mcp.Base.{◌++◌, map, pos, ℕ, suc, Text, List, [], ◌∷◌, true, ◌≡◌, refl, codes}
use cpp_mcp.Errors.{ok, raise, db_unreachable_error}
use cpp_mcp.OrderedDict.{get, set_item}
use cpp_mcp.Exporter.Variables.{class}
use cpp_mcp.Exporter.Records.{NodeRecord, file_props}
use cpp_mcp.Drivers.Contract.{write_vertices}
use cpp_mcp.Drivers.Cognee.{
  Session, Run, cli_not_found, finished, Shell, Transport, init, strip_slashes, dataset_of, connect,
  upsert_node, upsert_nodes_from, upsert_nodes, cli_ingest,
}
use cpp_mcp.Drivers.Cognee.Index.{
  Upload, upload_of, Delivers, indexed, node_usrs, upsert_nodes_sends,
}

-- A transport whose state is the log of its calls.
abbrev logging : Transport (List Upload)
logging key document dataset node_set s = (s ++ (key, (document, (dataset, node_set))) ∷ [], ok tt)

abbrev digest : Text → Text
digest usr = usr

abbrev node : NodeRecord
node = record {
  label = class;
  usr = codes "c:@S@A";
  props =
      file_props
        (record { path = codes "a.h"; spelling = codes "a.h"; schema_version = codes "v6" });
}

abbrev open_session : Session
open_session = record {
  dataset = codes "kb";
  node_set = [];
  connected = true;
  node_index = [];
  edge_index = [];
}

abbrev twice : List NodeRecord
twice = node ∷ node ∷ []

program : Unit {0}
unfolding connect strip_slashes dataset_of cli_ingest upsert_nodes upsert_nodes_from upsert_node get
    set_item
program = tt

-- The path of a URI without a host names the dataset; a URI of another scheme leaves the session.
connected :
    (connect (record { scheme = codes "cognee"; netloc = []; path = codes "//kb" }) [] init
      ≡ (open_session, ok tt))
    × (connect (record { scheme = codes "bolt"; netloc = codes "kb"; path = [] }) [] open_session
        ≡ (open_session, raise db_unreachable_error))
unfolding program
connected = (refl, refl)

-- A shell whose state counts the files that are left.
abbrev shell : Run → Shell ℕ
shell run = record {
  write_temporary = λ body s. (suc s, ok (codes "/tmp/a.json"));
  request = λ path s. (s, run);
  unlink = λ path s. 0;
}

-- The file goes, whatever the run does.
posted :
    (cli_ingest (shell (finished (pos 0))) (λ key document dataset node_set. []) [] [] [] [] 0
      ≡ (0, ok tt))
    × (cli_ingest (shell cli_not_found) (λ key document dataset node_set. []) [] [] [] [] 0
        ≡ (0, raise db_unreachable_error))
unfolding program
posted = (refl, refl)

-- The second upsert of a node is sent, and not counted.
sent_twice : (upsert_nodes digest logging twice (open_session, [])).1 ≡ ok 1
unfolding program
sent_twice = refl

logging-Delivers : Delivers logging (λ s. s)
logging-Delivers = record {
  answers = λ key document dataset node_set s. refl;
  logged = λ key document dataset node_set s. refl;
}

upsert_nodes_sends_example :
    ((upsert_nodes digest logging twice (open_session, [])).1
      ≡ ok (write_vertices (node_usrs twice) 0 (indexed open_session)).0)
    × (indexed (upsert_nodes digest logging twice (open_session, [])).0.0
        ≡ (write_vertices (node_usrs twice) 0 (indexed open_session)).1)
    × ((upsert_nodes digest logging twice (open_session, [])).0.1
        ≡ [] ++ map (upload_of digest logging open_session) twice)
upsert_nodes_sends_example =
    upsert_nodes_sends digest logging (λ s. s) logging-Delivers twice open_session [] refl
