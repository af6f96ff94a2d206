-- ===== src/Ingest/Files/Counts.antt =====
-- What the loop of `_do_ingest_code` (src/cpp_mcp/tools/ingest_code.py) counts, and that it keeps the
-- session's cache valid.
use cpp_mcp.Base.{
  ℕ, ◌+◌, Text, List, [], ◌∷◌, some, Bool, true, ◌≡◌, inl, inr, refl, length, length-append, elem,
  All, All-append, list_eq, nat_eq, arith,
}
use cpp_mcp.Errors.{ExceptionType, Result, ok, raise, Result-cases}
use cpp_mcp.CompileDb.{resolve_flags}
use cpp_mcp.Cache.{TuCache}
use cpp_mcp.Cache.Invariant.{IsValid, get_or_parse-IsValid}
use cpp_mcp.Session.{effective_flags, session_parser, get_or_parse_sync}
use cpp_mcp.Drivers.Export.{Exported}
use cpp_mcp.Ingest.Files.{Job, State, Totals, count, exported, ingest_file, ingest_files}

-- The files that are done, and those that failed.
abbrev pub handled : Totals → ℕ
handled totals = totals.files_processed + length totals.errors

handled-count :
    (file : Text) (r : Result Exported) (totals : Totals)
    → handled (count file r totals) ≡ handled totals + 1
unfolding count
handled-count file (ok r) totals = omega arith
handled-count file (raise e) totals = omega (arith, length-append totals.errors ((file, e) ∷ []))

-- Every error names a file of the list.
abbrev pub NamesFile : List Text → Text × ExceptionType → Type 0
NamesFile files e = elem e.0 files ≡ true

NamesFile-count :
    (files : List Text) (file : Text) (r : Result Exported) (totals : Totals)
    → elem file files ≡ true
    → All (NamesFile files) totals.errors
    → All (NamesFile files) (count file r totals).errors
unfolding count
NamesFile-count files file (ok r) totals here h = h
NamesFile-count files file (raise e) totals here h =
    All-append (NamesFile files) totals.errors ((file, e) ∷ []) h (here, tt)

module _ {S TU : Type 0} (job : Job S TU) where
  pub handled-ingest_files :
      (files : List Text) (st : State S TU) (totals : Totals)
      → handled (ingest_files job files st totals).1 ≡ handled totals + length files
  unfolding ingest_files
  handled-ingest_files [] st totals = omega arith
  handled-ingest_files (file ∷ files) st totals =
      let (st', r) = ingest_file job file st in
      omega
        (arith, handled-ingest_files files st' (count file r totals), handled-count file r totals)

  pub NamesFile-ingest_files :
      (all files : List Text) (st : State S TU) (totals : Totals)
      → All (λ f. elem f all ≡ true) files
      → All (NamesFile all) totals.errors
      → All (NamesFile all) (ingest_files job files st totals).1.errors
  unfolding ingest_files
  NamesFile-ingest_files all [] st totals here h = h
  NamesFile-ingest_files all (file ∷ files) st totals here h =
      let (st', r) = ingest_file job file st in
      NamesFile-ingest_files all files st' (count file r totals) here.1
        (NamesFile-count all file r totals here.0 h)

  exported_cache :
      (file : Text) (cache : TuCache TU) (s : S) (parsed : Result (TU × Bool))
      → (exported job file cache s parsed).0.cache ≡ cache
  exported_cache file cache s (raise e) = refl
  exported_cache file cache s (ok (tu, hit)) = refl

  ingest_file-IsValid :
      (file : Text) (st : State S TU) → IsValid st.cache → IsValid (ingest_file job file st).0.cache
  unfolding ingest_file get_or_parse_sync
  ingest_file-IsValid file st v =
      elim (Result-cases (resolve_flags job.tree file (some job.build_path) job.default_flags)) [
        | inr (e, refused) ↦ rw (ingest_file, refused) v
        | inl ((flags, source), found) ↦
            let step =
              get_or_parse_sync job.host job.parse (job.before file) (job.after file) file
                (some job.build_path) flags 0 st.cache in
            rw (ingest_file, found)
              (rw (exported_cache file step.0 st.database step.1) (
                get_or_parse-IsValid job.host (job.before file) (job.after file) file
                  (some job.build_path) (effective_flags flags 0) (session_parser job.parse 0)
                  st.cache v))
      ]

  pub ingest_files-IsValid :
      (files : List Text) (st : State S TU) (totals : Totals)
      → IsValid st.cache
      → IsValid (ingest_files job files st totals).0.cache
  unfolding ingest_files
  ingest_files-IsValid [] st totals v = v
  ingest_files-IsValid (file ∷ files) st totals v =
      let (st', r) = ingest_file job file st in
      ingest_files-IsValid files st' (count file r totals) (ingest_file-IsValid file st v)
