-- ===== src/Ingest/Tests.antt =====
-- `ingest_code` of src/cpp_mcp/tools/ingest_code.py on a directory with two sources, of which one does not
-- parse, and the theorems at it.
use cpp_mcp.Base.{
  ◌||◌, Text, List, [], ◌∷◌, some, Bool, true, false, ◌&&◌, ◌≟◌, list_eq, nat_eq, codes, elem,
  if◌then◌else◌, ◌≡◌, refl, All, ap, arith, pos, starts_with, contains, decimal,
}
use cpp_mcp.OrderedDict.{get, set_item, move_to_end}
use cpp_mcp.Errors.{Result, ok, raise, fatal_parse_error, path_violation_error, value_error}
use cpp_mcp.Paths.Text.{split, parts, join, common_prefix, commonpath}
use cpp_mcp.Paths.Guard.{
  FileSystem, validate_path, has_dotdot, pure_parts, under_root, under_any_root, file,
}
use cpp_mcp.CompileDb.{resolve_flags, from_database, extract_flags}
use cpp_mcp.Cache.{get_or_parse, check, insert, make_room, new_entry, current_mtime, new_mtime}
use cpp_mcp.Cache.Keys.{make_key}
use cpp_mcp.Cache.Invariant.{IsValid}
use cpp_mcp.Session.{effective_flags, strip_options, session_parser, get_or_parse_sync}
use cpp_mcp.Query.Tool.{connect_error}
use cpp_mcp.Exporter.Cursor.{Cursor, file_usr}
use cpp_mcp.Drivers.Items.{
  normalise_prop, label_name, edge_name, node_items, edge_items, props_with_usr,
}
use cpp_mcp.Drivers.Indra.{
  upsert_nodes, upsert_nodes_from, upsert_node, upsert_edges, upsert_edges_from, upsert_edge,
}
use cpp_mcp.Exporter.Walk.Sample.{root, walked}
use cpp_mcp.Drivers.Contract.{Content, GraphDriver}
use cpp_mcp.Drivers.Select.{select_driver}
use cpp_mcp.Drivers.Export.{export_file}
use cpp_mcp.Drivers.Memory.{driver, empty, same, driver-KeepsContract}
use cpp_mcp.Ingest.Collect.{
  Listing, collect_cpp_files, suffix, name_of, is_cpp, sorted, path_le, parts_le, text_le,
}
use cpp_mcp.Ingest.Collect.Order.{IsAscending, collect_cpp_files-IsAscending}
use cpp_mcp.Ingest.Files.{Job, State, Totals, no_totals, count, ingest_file, ingest_files}
use cpp_mcp.Ingest.Files.Kept.{failed, ingest_files-stores}
use cpp_mcp.Ingest.Checks.{Request, checked}
use cpp_mcp.Ingest.Tool.{World, connect, do_ingest_code}
use cpp_mcp.Ingest.Tool.Runs.{Tried, do_ingest_code-Tried}

program : Unit {0}
unfolding do_ingest_code checked connect connect_error ingest_files ingest_file count
    collect_cpp_files suffix name_of is_cpp sorted path_le parts_le text_le select_driver
    get_or_parse_sync effective_flags strip_options session_parser get_or_parse check insert
    make_room new_entry current_mtime new_mtime make_key get set_item move_to_end resolve_flags
    from_database extract_flags validate_path has_dotdot pure_parts under_root under_any_root split
    parts join common_prefix commonpath starts_with contains
program = tt

driven : Unit {0}
unfolding export_file upsert_nodes upsert_nodes_from upsert_node upsert_edges upsert_edges_from
    upsert_edge props_with_usr node_items edge_items label_name edge_name normalise_prop decimal
driven = tt

pair_path : {S A : Type 0} {x : S × Result A} {r : Result A} → x.1 ≡ r → x ≡ (x.0, r)
pair_path {x = x} h = ap (λ s. (x.0, s)) h

abbrev a_cpp : Text
a_cpp = codes "/src/a.cpp"

abbrev b_cpp : Text
b_cpp = codes "/src/b.cpp"

abbrev src : Text
src = codes "/src"

abbrev is_file : Text → Bool
is_file p = elem p (a_cpp ∷ b_cpp ∷ codes "/src/notes.txt" ∷ [])

abbrev fs : FileSystem
fs = record { realpath = λ p. p; exists = λ p. true; is_file = is_file }

abbrev found : List Text
found = b_cpp ∷ codes "/src/notes.txt" ∷ a_cpp ∷ codes "/src/sub" ∷ []

abbrev listing : Listing
listing = record { is_file = is_file; rglob = λ p. raise value_error; iterdir = λ p. ok found }

collected : collect_cpp_files listing src false ≡ ok (a_cpp ∷ b_cpp ∷ [])
unfolding program
collected = refl

collect_cpp_files-IsAscending_example :
    (files : List Text) × (collect_cpp_files listing src false ≡ ok files)
    × IsAscending files
    × ((p : Text) → elem p files ≡ (elem p found && (is_file p && is_cpp p)))
collect_cpp_files-IsAscending_example =
    collect_cpp_files-IsAscending listing src false found refl refl

abbrev job : GraphDriver Content → Text → Job Content Cursor
job d build = record {
  host = record { realpath = λ p. p; flags_sha1 = λ flags. [] };
  tree = record { is_file = λ p. false; from_directory = λ p. raise value_error };
  parse = λ path flags options. if path ≟ a_cpp then ok root else raise fatal_parse_error;
  before = λ f p. some (pos 7);
  after = λ f p. some (pos 7);
  root = λ c. c;
  sha1 = λ s. s;
  driver = d;
  build_path = build;
  default_flags = [];
}

abbrev world : World Content Cursor
world = record {
  scheme_of = λ uri. ok (codes "grpc");
  file_system = fs;
  listing = listing;
  backends = record {
    connect = λ backend uri c. (c, ok tt);
    driver = λ backend. driver;
    close = λ backend c. c;
  };
  job = job;
}

abbrev request : Request
request = record {
  file_path_or_dir = src;
  build_path = some (codes "/src/build");
  db_uri = some (codes "grpc://h");
  allowed_roots = src ∷ [];
  recursive = false;
}

abbrev start : State Content Cursor
start = record {
  cache = record { capacity = 2; store = []; hits = 0; misses = 0; evictions = 0 };
  database = empty;
}

start-IsValid : IsValid start.cache
start-IsValid = record { positive = omega arith; bounded = omega arith; distinct = tt }

abbrev totals : Totals
totals = record {
  files_processed = 1;
  nodes_written = 6;
  edges_written = 6;
  nodes_attempted = 6;
  edges_attempted = 8;
  errors = (b_cpp, fatal_parse_error) ∷ [];
}

-- One file is exported, with the edges to the base and to the function dropped; the other has an error.
answered : (do_ingest_code world request start).1 ≡ ok totals
unfolding program walked driven
answered = refl

do_ingest_code-Tried_example : Tried world request start totals
do_ingest_code-Tried_example =
    do_ingest_code-Tried world request start (do_ingest_code world request start).0 totals
      (pair_path answered)

ingest_files-stores_example :
    All
      (λ f.
        (elem f (failed (ingest_files (job driver src) (a_cpp ∷ b_cpp ∷ []) start no_totals).1)
          || (ingest_files
                (job driver src)
                (a_cpp ∷ b_cpp ∷ [])
                start
                no_totals).0.database.vertices
              (file_usr f))
        ≡ true)
      (a_cpp ∷ b_cpp ∷ [])
ingest_files-stores_example =
    ingest_files-stores (job driver src) same (λ usr. usr) driver-KeepsContract (a_cpp ∷ b_cpp ∷ [])
      start no_totals

abbrev outside : Request
outside = record request { file_path_or_dir = codes "/etc" }

refused_outside : validate_path fs (codes "/etc") (src ∷ []) file ≡ raise path_violation_error
unfolding program
refused_outside = refl
