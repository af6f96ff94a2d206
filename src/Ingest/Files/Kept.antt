-- ===== src/Ingest/Files/Kept.antt =====
-- What the loop of `_do_ingest_code` (src/cpp_mcp/tools/ingest_code.py) leaves in the database.
use cpp_mcp.Base.{
  Text, List, [], ◌∷◌, ◌++◌, some, Bool, true, false, ◌||◌, list_eq, nat_eq, elem, map, ◌≡◌, ◌⊎◌,
  inl, inr, refl, ap, arith, All, beq_refl,
}
use cpp_mcp.Errors.{ExceptionType, Result, ok, raise, Result-cases}
use cpp_mcp.CompileDb.{resolve_flags}
use cpp_mcp.Cache.{TuCache}
use cpp_mcp.Session.{get_or_parse_sync}
use cpp_mcp.Exporter.Cursor.{file_usr}
use cpp_mcp.Exporter.Walk.Closed.{elem-append}
use cpp_mcp.Drivers.Contract.{Content, KeepsContract}
use cpp_mcp.Drivers.Export.{Exported}
use cpp_mcp.Drivers.Export.Stored.{export_file-adds}
use cpp_mcp.Ingest.Files.{Job, State, Totals, count, export_of, exported, ingest_file, ingest_files}

-- The files that the errors name.
abbrev pub failed : Totals → List Text
failed totals = map (λ (e : Text × ExceptionType). e.0) totals.errors

map-snoc :
    (errors : List (Text × ExceptionType)) (file : Text) (e : ExceptionType)
    → map (λ (x : Text × ExceptionType). x.0) (errors ++ (file, e) ∷ [])
      ≡ map (λ (x : Text × ExceptionType). x.0) errors ++ file ∷ []
map-snoc [] file e = refl
map-snoc (x ∷ errors) file e = ap (λ l. x.0 ∷ l) (map-snoc errors file e)

-- A file that has failed stays among them.
failed-count :
    (f file : Text) (r : Result Exported) (totals : Totals)
    → elem f (failed totals) ≡ true
    → elem f (failed (count file r totals)) ≡ true
unfolding count
failed-count f file (ok r) totals h = h
failed-count f file (raise e) totals h =
    rw (map-snoc totals.errors file e, elem-append f (failed totals) (file ∷ []), h) refl

failed-raise :
    (file : Text) (e : ExceptionType) (totals : Totals)
    → elem file (failed (count file (raise e) totals)) ≡ true
unfolding count
failed-raise file e totals =
    rw (map-snoc totals.errors file e)
      (ground (arith, elem-append file (failed totals) (file ∷ []), beq_refl file))

or_true : (b : Bool) → (b || true) ≡ true
or_true true = refl
or_true false = refl

module _ {S TU : Type 0} (job : Job S TU) (view : S → Content) (key : Text → Text)
    (contract : KeepsContract job.driver view key) where
  abbrev stored : Text → State S TU → Bool
  stored v st = (view st.database).vertices v

  -- What a file does: it keeps what is stored, and it raises or its own node is stored.
  record Step (file : Text) (before : State S TU) (after : State S TU × Result Exported)
      : Type 0 where
    kept : (v : Text) → stored v before ≡ true → stored v after.0 ≡ true
    ended :
        ((e : ExceptionType) × (after.1 ≡ raise e)) ⊎ (stored (key (file_usr file)) after.0 ≡ true)

  exported-Step :
      (file : Text) (cache cache' : TuCache TU) (s : S) (parsed : Result (TU × Bool))
      → Step file (record { cache = cache; database = s }) (exported job file cache' s parsed)
  exported-Step file cache cache' s (raise e) = record { kept = λ v h. h; ended = inl (e, refl) }
  exported-Step file cache cache' s (ok (tu, hit)) =
      let (t, r, ran, kept, here) =
        export_file-adds job.driver view key contract (export_of job file) (job.root tu) s in
      rw ran (record { kept = kept; ended = inr here })

  ingest_file-Step : (file : Text) (st : State S TU) → Step file st (ingest_file job file st)
  unfolding ingest_file
  ingest_file-Step file st =
      elim (Result-cases (resolve_flags job.tree file (some job.build_path) job.default_flags)) [
        | inr (e, refused) ↦
            rw (ingest_file, refused) (record { kept = λ v h. h; ended = inl (e, refl) })
        | inl ((flags, source), found) ↦
            let step =
              get_or_parse_sync job.host job.parse (job.before file) (job.after file) file
                (some job.build_path) flags 0 st.cache in
            rw (ingest_file, found) (exported-Step file st.cache step.0 st.database step.1)
      ]

  kept_lem :
      (files : List Text) (st : State S TU) (totals : Totals) (v : Text)
      → stored v st ≡ true
      → stored v (ingest_files job files st totals).0 ≡ true
  unfolding ingest_files
  kept_lem [] st totals v h = h
  kept_lem (file ∷ files) st totals v h =
      let (st', r) = ingest_file job file st in
      kept_lem files st' (count file r totals) v ((ingest_file-Step file st).kept v h)

  failed_lem :
      (files : List Text) (st : State S TU) (totals : Totals) (f : Text)
      → elem f (failed totals) ≡ true
      → elem f (failed (ingest_files job files st totals).1) ≡ true
  unfolding ingest_files
  failed_lem [] st totals f h = h
  failed_lem (file ∷ files) st totals f h =
      let (st', r) = ingest_file job file st in
      failed_lem files st' (count file r totals) f (failed-count f file r totals h)

  -- With a driver that keeps to the contract, when the loop ends each file of the list either has an
  -- error or has its node in the database, also if it came long before the end.
  pub ingest_files-stores :
      (files : List Text) (st : State S TU) (totals : Totals)
      → All
          (λ f.
            (elem f (failed (ingest_files job files st totals).1)
              || (view (ingest_files job files st totals).0.database).vertices (key (file_usr f)))
            ≡ true)
          files
  unfolding ingest_files
  ingest_files-stores [] st totals = tt
  ingest_files-stores (file ∷ files) st totals =
      let (st', r) = ingest_file job file st in
      let rest = ingest_files-stores files st' (count file r totals) in
      elim ((ingest_file-Step file st).ended) [
        | inl (e, raised) ↦
            let bad : elem file (failed (count file r totals)) ≡ true =
              rw raised (failed-raise file e totals) in
            (rw (failed_lem files st' (count file r totals) file bad) refl, rest)
        | inr here ↦
            let last = kept_lem files st' (count file r totals) (key (file_usr file)) here in
            (rw last (or_true _), rest)
      ]
