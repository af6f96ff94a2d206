-- ===== src/Ingest/Tool/Runs.antt =====
-- How a call of `_do_ingest_code` (src/cpp_mcp/tools/ingest_code.py) ends.
use cpp_mcp.Base.{
  Text, List, ◌≡◌, ◌⊎◌, inl, inr, refl, sym, subst, ◌∙◌, length, All, list_eq, nat_eq, arith,
}
use cpp_mcp.Errors.{ExceptionType, Result, ok, raise, Result-cases}
use cpp_mcp.Paths.Guard.{file, dir, validate_path}
use cpp_mcp.Cache.Invariant.{IsValid}
use cpp_mcp.Query.Tool.{Backend}
use cpp_mcp.Drivers.Action.{Action, pure, ◌>>=◌, ◌>>◌, >>=-ok, >>=-raise}
use cpp_mcp.Drivers.Contract.Again.{All-elem}
use cpp_mcp.Ingest.Collect.{collect_cpp_files}
use cpp_mcp.Ingest.Files.{State, Totals, no_totals, ingest_files}
use cpp_mcp.Ingest.Files.Counts.{
  NamesFile, handled, handled-ingest_files, NamesFile-ingest_files, ingest_files-IsValid,
}
use cpp_mcp.Ingest.Checks.{Request, text_of, checked, checked_paths}
use cpp_mcp.Ingest.Tool.{World, connected, connect, lift, close, run, do_ingest_code}

module _ {S TU : Type 0} (w : World S TU) (r : Request) (st : State S TU) where
  refused_lem :
      (e : ExceptionType)
      → checked w.scheme_of w.file_system r ≡ raise e
      → do_ingest_code w r st ≡ (st, raise e)
  unfolding do_ingest_code
  refused_lem e h = rw (do_ingest_code, h) refl

  abbrev joined : Backend → State S TU × Result (Unit {0})
  joined backend = connect w backend (text_of r.db_uri) st

  abbrev done : Backend → Text → List Text → State S TU × Totals
  done backend build files =
      ingest_files (w.job (w.backends.driver backend) build) files (joined backend).0 no_totals

  -- The call after its checks.
  abbrev unchecked : Backend → Text → Text → Action (State S TU) Totals
  unchecked backend build path = do
    connect w backend (text_of r.db_uri)
    cpp_files ← lift (collect_cpp_files w.listing path r.recursive)
    totals ← run w (w.job (w.backends.driver backend) build) cpp_files
    close w backend
    pure totals

  passed_lem :
      (backend : Backend) (build path : Text)
      → checked w.scheme_of w.file_system r ≡ ok (backend, (build, path))
      → do_ingest_code w r st ≡ unchecked backend build path st
  unfolding do_ingest_code
  passed_lem backend build path h = rw (do_ingest_code, h) refl

  module _ (backend : Backend) (build path : Text) where
    unreachable_lem :
        (e : ExceptionType)
        → (joined backend).1 ≡ raise e
        → unchecked backend build path st ≡ ((joined backend).0, raise e)
    unreachable_lem e h = >>=-raise (connect w backend (text_of r.db_uri)) _ st e h

    uncollected_lem :
        (u : Unit {0}) (e : ExceptionType)
        → (joined backend).1 ≡ ok u
        → collect_cpp_files w.listing path r.recursive ≡ raise e
        → unchecked backend build path st ≡ ((joined backend).0, raise e)
    uncollected_lem u e h k = >>=-ok (connect w backend (text_of r.db_uri)) _ st u h ∙ rw k refl

    done_lem :
        (u : Unit {0}) (files : List Text)
        → (joined backend).1 ≡ ok u
        → collect_cpp_files w.listing path r.recursive ≡ ok files
        → unchecked backend build path st
          ≡ ((close w backend (done backend build files).0).0, ok (done backend build files).1)
    done_lem u files h k = >>=-ok (connect w backend (text_of r.db_uri)) _ st u h ∙ rw k refl

  -- A property of every way in which a call ends: refused by the checks, stopped between the
  -- connection and the files, or with all files tried.
  ending :
      (P : State S TU × Result Totals → Type 0)
      → ((e : ExceptionType) → P (st, raise e))
      → ((backend : Backend) (e : ExceptionType) → P ((joined backend).0, raise e))
      → ((backend : Backend) (build path : Text) (files : List Text)
          → checked w.scheme_of w.file_system r ≡ ok (backend, (build, path))
          → collect_cpp_files w.listing path r.recursive ≡ ok files
          → P ((close w backend (done backend build files).0).0, ok (done backend build files).1))
      → P (do_ingest_code w r st)
  ending P refused stopped finished = elim (Result-cases (checked w.scheme_of w.file_system r)) [
    | inr (e, h) ↦ subst P (sym (refused_lem e h)) (refused e)
    | inl ((backend, (build, path)), h) ↦
        subst P (sym (passed_lem backend build path h)) (elim (Result-cases (joined backend).1) [
          | inr (e, k) ↦ subst P (sym (unreachable_lem backend build path e k)) (stopped backend e)
          | inl (u, k) ↦ elim (Result-cases (collect_cpp_files w.listing path r.recursive)) [
            | inr (e, l) ↦
                subst P (sym (uncollected_lem backend build path u e k l)) (stopped backend e)
            | inl (files, l) ↦
                subst P (sym (done_lem backend build path u files k l))
                  (finished backend build path files h l)
          ]
        ])
  ]

  connected_cache : (x : S × Result (Unit {0})) → (connected w st x).0.cache ≡ st.cache
  connected_cache (s, ok u) = refl
  connected_cache (s, raise e) = refl

  joined_cache : (backend : Backend) → (joined backend).0.cache ≡ st.cache
  unfolding connect
  joined_cache backend = connected_cache (w.backends.connect backend (text_of r.db_uri) st.database)

  -- A call keeps the session's cache valid, however it ends.
  pub do_ingest_code-IsValid : IsValid st.cache → IsValid (do_ingest_code w r st).0.cache
  do_ingest_code-IsValid v =
      ending (λ x. IsValid x.0.cache) (λ e. v) (λ backend e. rw (joined_cache backend) v)
        (λ backend build path files h l.
          ingest_files-IsValid (w.job (w.backends.driver backend) build) files (joined backend).0
            no_totals (rw (joined_cache backend) v))

  -- What a call has to do with the files when it answers.
  abbrev pub Tried : Totals → Type 0
  Tried totals =
      (backend : Backend) × (build path : Text) × (files : List Text) × (checked w.scheme_of
          w.file_system r
        ≡ ok (backend, (build, path)))
      × (collect_cpp_files w.listing path r.recursive ≡ ok files)
      × (handled totals ≡ length files)
      × All (NamesFile files) totals.errors

  -- A call that answers has tried every collected file once: the files that are processed and the
  -- errors are together as many as the files, and each error names one of them.
  pub do_ingest_code-Tried :
      (st' : State S TU) (totals : Totals) → do_ingest_code w r st ≡ (st', ok totals) → Tried totals
  do_ingest_code-Tried st' totals =
      ending (λ x. x ≡ (st', ok totals) → Tried totals) (λ e h. absurd (cc h))
        (λ backend e h. absurd (cc h))
        (λ backend build path files h l same.
          let job = w.job (w.backends.driver backend) build in
          let start = (joined backend).0 in
          let last : (done backend build files).1 ≡ totals = cc same in
          rw (← last) (
            backend,
            build,
            path,
            files,
            h,
            l,
            omega (arith, handled-ingest_files job files start no_totals),
            NamesFile-ingest_files job files files start no_totals (All-elem files) tt,
          ))

  -- A call whose path or build directory is not accepted, because it is outside of the allowed
  -- roots, is not there or climbs up, raises and leaves the cache and the database as they
  -- are, whatever the other arguments are.
  pub do_ingest_code-validate_path :
      (e : ExceptionType)
      → (validate_path w.file_system (text_of r.build_path) r.allowed_roots dir ≡ raise e)
        ⊎ (validate_path w.file_system r.file_path_or_dir r.allowed_roots file ≡ raise e)
      → (e' : ExceptionType) × (do_ingest_code w r st ≡ (st, raise e'))
  unfolding checked
  do_ingest_code-validate_path e h = elim (Result-cases (checked w.scheme_of w.file_system r)) [
    | inr (e', k) ↦ (e', refused_lem e' k)
    | inl ((backend, (build, path)), k) ↦
        let both = checked_paths w.scheme_of w.file_system r backend build path k in
        elim h [
          | inl bad ↦ absurd (let fine = both.0 in cc (fine, bad))
          | inr bad ↦ absurd (let fine = both.1 in cc (fine, bad))
        ]
  ]
