-- ===== src/Navigation/Parsed.antt =====
-- What the tools of src/cpp_mcp/tools that read a unit begin with: the path guard, the flags and the cached
-- session, with the parse options of the tool.
pub mod Confined
use cpp_mcp.Base.{ℕ, Text, List, Option, Bool, ◌≡◌, refl}
use cpp_mcp.Errors.{Result, ok, raise, ◌>>=◌, >>=-eq-ok}
use cpp_mcp.Paths.Guard.{FileSystem, file, validate_path}
use cpp_mcp.CompileDb.{BuildTree, Database, FlagsSource, resolve_flags}
use cpp_mcp.Cache.{TuCache, Stat}
use cpp_mcp.Cache.Keys.{Host}
use cpp_mcp.Session.{IndexParse, get_or_parse_sync}
use cpp_mcp.Tools.GetAst.{validate_build}

-- The host while one call runs: the file system, the compilation databases, libclang, and the mtimes
-- before and after a parse.
pub record Environment (TU : Type 0) : Type 0 where
  pub fs : FileSystem
  pub from_directory : Text → Result Database
  pub host : Host
  pub parse : IndexParse TU
  pub before : Stat
  pub after : Stat

-- What a tool is given beside a position: the two paths and the server's configuration.
pub record Request : Type 0 where
  pub file_path : Text
  pub build_path : Option Text
  pub allowed_roots : List Text
  pub default_flags : List Text

-- The real file, the real build directory, the flags and where they come from.
pub record Plan : Type 0 where
  pub file : Text
  pub build : Option Text
  pub flags : List Text
  pub source : FlagsSource

pub record Parsed (TU : Type 0) : Type 0 where
  pub file : Text
  pub flags_source : FlagsSource
  pub tu : TU
  pub cache_hit : Bool

module _ {TU : Type 0} where
  abbrev build_tree : Environment TU → BuildTree
  build_tree env = record { is_file = env.fs.is_file; from_directory = env.from_directory }

  unfoldable pub prepare : Environment TU → Request → Result Plan
  unfolding validate_build
  prepare env request = do
    real ← validate_path env.fs request.file_path request.allowed_roots file
    build ← validate_build env.fs request.build_path request.allowed_roots
    (flags, source) ← resolve_flags (build_tree env) real build request.default_flags
    ok (record { file = real; build = build; flags = flags; source = source })

  abbrev pub with_plan : Plan → TU × Bool → Parsed TU
  with_plan plan (tu, cache_hit) = record {
    file = plan.file;
    flags_source = plan.source;
    tu = tu;
    cache_hit = cache_hit;
  }

  unfoldable pub parse_unit :
      Environment TU → Request → ℕ → TuCache TU → TuCache TU × Result (Parsed TU)
  parse_unit env request options c = elim (prepare env request) [
    | raise e ↦ (c, raise e)
    | ok plan ↦
        let (c', parsed) =
          get_or_parse_sync env.host env.parse env.before env.after plan.file plan.build plan.flags
            options c in
        (c', do unit ← parsed; ok (with_plan plan unit))
  ]

  -- A tool that answers from the unit.
  unfoldable pub on_unit {ℓ} :
      {A : Type ℓ}
      → Environment TU
      → Request
      → ℕ
      → (Parsed TU → Result A)
      → TuCache TU
      → TuCache TU × Result A
  unfolding parse_unit
  on_unit env request options answer c =
      let (c', parsed) = parse_unit env request options c in (c', parsed >>= answer)

-- An answer is that of the unit which the session gave.
pub answered_on_unit {ℓ} :
    {TU : Type 0} {A : Type ℓ} (env : Environment TU) (request : Request) (options : ℕ)
    (answer : Parsed TU → Result A) (c : TuCache TU) {a : A}
    → (on_unit env request options answer c).1 ≡ ok a
    → (unit : Parsed TU) × ((parse_unit env request options c).1 ≡ ok unit) × (answer unit ≡ ok a)
unfolding on_unit
answered_on_unit env request options answer c h =
    >>=-eq-ok (parse_unit env request options c).1 answer h
