-- ===== src/Ingest/Tool.antt =====
-- `_do_ingest_code` of src/cpp_mcp/tools/ingest_code.py: the checks, the connection, and the files.
pub mod Runs
use cpp_mcp.Base.{
  ℕ, Text, String, List, [], ◌∷◌, Option, none, some, Bool, true, false, ◌≡◌, ◌⊎◌, inl, inr, refl,
  arith,
}
use cpp_mcp.Errors.{ExceptionType, Result, ok, raise, Result-cases}
use cpp_mcp.Paths.Guard.{FileSystem}
use cpp_mcp.Query.Tool.{Backend, connect_error}
use cpp_mcp.Drivers.Action.{Action, pure, ◌>>=◌, ◌>>◌}
use cpp_mcp.Drivers.Contract.{GraphDriver}
use cpp_mcp.Ingest.Collect.{Listing, collect_cpp_files}
use cpp_mcp.Ingest.Files.{Job, State, Totals, no_totals, ingest_files}
use cpp_mcp.Ingest.Checks.{Request, text_of, checked}

-- The backends: how `connect` of a fresh driver ends for a URI and what it does to the service, the
-- driver that is connected then, and `close`, of which what it raises is suppressed.
pub record Backends (S : Type 0) : Type 0 where
  pub connect : Backend → Text → Action S (Unit {0})
  pub driver : Backend → GraphDriver S
  pub close : Backend → S → S

-- The job's driver and build directory are those that the call selects.
pub record World (S TU : Type 0) : Type 0 where
  pub scheme_of : Text → Result Text
  pub file_system : FileSystem
  pub listing : Listing
  pub backends : Backends S
  pub job : GraphDriver S → Text → Job S TU

abbrev pub lift : {S A : Type 0} → Result A → Action S A
lift r s = (s, r)

module _ {S TU : Type 0} (w : World S TU) where
  abbrev connected : State S TU → S × Result (Unit {0}) → State S TU × Result (Unit {0})
  connected st (s, ok u) = (record st { database = s }, ok tt)
  connected st (s, raise e) = (record st { database = s }, raise (connect_error e))

  unfoldable pub connect : Backend → Text → Action (State S TU) (Unit {0})
  unfolding connect_error
  connect backend uri st = connected st (w.backends.connect backend uri st.database)

  abbrev run : Job S TU → List Text → Action (State S TU) Totals
  run job files st = let (st', totals) = ingest_files job files st no_totals in (st', ok totals)

  abbrev close : Backend → Action (State S TU) (Unit {0})
  close backend st = (record st { database = w.backends.close backend st.database }, ok tt)

  -- What `collect_cpp_files` raises leaves the driver open.
  unfoldable pub do_ingest_code : Request → Action (State S TU) Totals
  unfolding checked connect collect_cpp_files ingest_files
  do_ingest_code r = do
    (backend, (build, path)) ← lift (checked w.scheme_of w.file_system r)
    connect backend (text_of r.db_uri)
    cpp_files ← lift (collect_cpp_files w.listing path r.recursive)
    totals ← run (w.job (w.backends.driver backend) build) cpp_files
    close backend
    pure totals
