-- ===== src/Ingest/Files.antt =====
-- The loop over the files of `_do_ingest_code` (src/cpp_mcp/tools/ingest_code.py).
pub mod Counts
pub mod Kept
use cpp_mcp.Base.{
  ℕ, ◌+◌, ◌≤◌, Text, String, List, [], ◌∷◌, ◌++◌, Option, none, some, Bool, true, false, ◌≡◌, ◌⊎◌,
  inl, inr, refl, length, elem, All, list_eq, nat_eq,
}
use cpp_mcp.Errors.{ExceptionType, Result, ok, raise}
use cpp_mcp.CompileDb.{BuildTree, resolve_flags}
use cpp_mcp.Cache.{TuCache, Stat}
use cpp_mcp.Cache.Keys.{Host}
use cpp_mcp.Session.{IndexParse, get_or_parse_sync}
use cpp_mcp.Exporter.Cursor.{Export, Cursor}
use cpp_mcp.Drivers.Contract.{GraphDriver}
use cpp_mcp.Drivers.Export.{Exported, export_file}
use cpp_mcp.Ingest.Collect.{name_of}

-- What the loop works with: the host, the compilation database, libclang and what the file system answers
-- before and after the parse of a file, the root cursor of a unit, the driver, and the arguments.
pub record Job (S TU : Type 0) : Type 0 where
  pub host : Host
  pub tree : BuildTree
  pub parse : IndexParse TU
  pub before : Text → Stat
  pub after : Text → Stat
  pub root : TU → Cursor
  pub sha1 : Text → Text
  pub driver : GraphDriver S
  pub build_path : Text
  pub default_flags : List Text

-- The session's cache, and the database.
pub record State (S TU : Type 0) : Type 0 where
  pub cache : TuCache TU
  pub database : S

-- The variables that the loop counts in; an error is kept by its file and its class.
pub record Totals : Type 0 where
  pub files_processed : ℕ
  pub nodes_written : ℕ
  pub edges_written : ℕ
  pub nodes_attempted : ℕ
  pub edges_attempted : ℕ
  pub errors : List (Text × ExceptionType)

abbrev pub no_totals : Totals
no_totals = record {
  files_processed = 0;
  nodes_written = 0;
  edges_written = 0;
  nodes_attempted = 0;
  edges_attempted = 0;
  errors = [];
}

unfoldable pub count : Text → Result Exported → Totals → Totals
count file (ok r) totals = record totals {
  files_processed = totals.files_processed + 1;
  nodes_written = totals.nodes_written + r.nodes_written;
  edges_written = totals.edges_written + r.edges_written;
  nodes_attempted = totals.nodes_attempted + r.nodes_attempted;
  edges_attempted = totals.edges_attempted + r.edges_attempted;
}
count file (raise e) totals = record totals { errors = totals.errors ++ (file, e) ∷ [] }

module _ {S TU : Type 0} (job : Job S TU) where
  abbrev pub export_of : Text → Export
  export_of file = record { file_path = file; file_name = name_of file; sha1 = job.sha1 }

  abbrev exported : Text → TuCache TU → S → Result (TU × Bool) → State S TU × Result Exported
  exported file cache database (raise e) = (record { cache = cache; database = database }, raise e)
  exported file cache database (ok (tu, hit)) =
      let (database', r) = export_file job.driver (export_of file) (job.root tu) database in
      (record { cache = cache; database = database' }, r)

  -- The body of the `try`. The unit is parsed without options.
  unfoldable pub ingest_file : Text → State S TU → State S TU × Result Exported
  unfolding resolve_flags get_or_parse_sync export_file name_of
  ingest_file file st = elim (resolve_flags job.tree file (some job.build_path) job.default_flags) [
    | raise e ↦ (st, raise e)
    | ok (flags, source) ↦
        let (cache, parsed) =
          get_or_parse_sync job.host job.parse (job.before file) (job.after file) file
            (some job.build_path) flags 0 st.cache in
        exported file cache st.database parsed
  ]

  unfoldable pub ingest_files : List Text → State S TU → Totals → State S TU × Totals
  unfolding ingest_file count
  ingest_files [] st totals = (st, totals)
  ingest_files (file ∷ files) st totals =
      let (st', r) = ingest_file file st in ingest_files files st' (count file r totals)
