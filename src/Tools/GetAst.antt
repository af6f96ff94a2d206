-- ===== src/Tools/GetAst.antt =====
-- `_do_get_ast` of src/cpp_mcp/tools/get_ast.py, which puts the path guard, the flags, the cached session
-- and the walkers together.
pub mod Confined
use cpp_mcp.Base.{
  lower, ℕ, zero, suc, ◌+◌, Text, List, [], ◌∷◌, map, Option, none, some, Bool, true, false, not,
  ◌&&◌, ℤ, lez, leb, ltb, codes, ◌≟◌, list_eq, nat_eq, if◌then◌else◌,
}
use cpp_mcp.Errors.{
  Result, ok, raise, raise_if, ◌>>=◌, ◌>>◌, invalid_range_error, fatal_parse_error,
}
use cpp_mcp.Ast.Cursor.{Cursor, Range}
use cpp_mcp.Ast.Json.{JsonResult, walk_json}
use cpp_mcp.Ast.Graph.{GraphResult, walk_graph}
use cpp_mcp.Ast.Diagnostics.{
  Stream, ParseError, collect_diagnostics, has_zero_ast_nodes, has_fatal_diagnostics,
}
use cpp_mcp.Paths.Guard.{FileSystem, Kind, file, dir, validate_path}
use cpp_mcp.CompileDb.{BuildTree, Database, FlagsSource, resolve_flags}
use cpp_mcp.Cache.{TuCache, Stat}
use cpp_mcp.Cache.Keys.{Host}
use cpp_mcp.Session.{IndexParse, get_or_parse_sync}

-- A parsed unit, by what the tool reads from it.
pub record TranslationUnit : Type 0 where
  pub cursor : Cursor
  pub diagnostics : Stream

-- The host while one call runs: the file system, the compilation databases, libclang, and the mtimes
-- before and after a parse.
pub record Environment : Type 0 where
  pub fs : FileSystem
  pub from_directory : Text → Result Database
  pub host : Host
  pub parse : IndexParse TranslationUnit
  pub before : Stat
  pub after : Stat

pub record Request : Type 0 where
  pub file_path : Text
  pub build_path : Option Text
  pub format : Text
  pub depth : ℕ
  pub range : Range

-- The server's configuration that the handler is given.
pub record Settings : Type 0 where
  pub allowed_roots : List Text
  pub default_flags : List Text
  pub max_nodes : ℕ
  pub max_bytes : ℕ

pub data Ast : Type 0 where
  json : JsonResult → Ast
  graph : GraphResult → Ast

pub record Answer : Type 0 where
  pub ast : Ast
  pub parse_errors : List ParseError
  pub flags_source : FlagsSource
  pub cache_hit : Bool

-- Both bounds are given and the first is above the second.
inverted : Range → Bool
inverted r = elim r.start_line [
  | none ↦ false
  | some first ↦ elim r.end_line [ none ↦ false | some last ↦ not (lez first last) ]
]

-- No character outside ASCII has a letter of "graph" as its lower case.
wants_graph : Text → Bool
wants_graph format = map lower format ≟ codes "graph"

unfoldable pub validate_build : FileSystem → Option Text → List Text → Result (Option Text)
validate_build fs none roots = ok none
validate_build fs (some path) roots = do real ← validate_path fs path roots dir; ok (some real)

-- What is settled before libclang is asked: the real file, the real build directory, the flags and
-- where they come from.
pub record Plan : Type 0 where
  pub file : Text
  pub build : Option Text
  pub flags : List Text
  pub source : FlagsSource

abbrev build_tree : Environment → BuildTree
build_tree env = record { is_file = env.fs.is_file; from_directory = env.from_directory }

unfoldable pub prepare : Environment → Settings → Request → Result Plan
unfolding inverted validate_build
prepare env settings request = do
  raise_if (inverted request.range) invalid_range_error
  real ← validate_path env.fs request.file_path settings.allowed_roots file
  build ← validate_build env.fs request.build_path settings.allowed_roots
  (flags, source) ← resolve_flags (build_tree env) real build settings.default_flags
  ok (record { file = real; build = build; flags = flags; source = source })

unfoldable pub walk : Settings → Request → TranslationUnit → Ast
unfolding wants_graph
walk settings request tu =
    if wants_graph request.format
    then graph (walk_graph tu.cursor request.range settings.max_nodes settings.max_bytes)
    else json
        (walk_json tu.cursor request.depth request.range settings.max_nodes settings.max_bytes)

unfoldable pub respond : Settings → Request → FlagsSource → TranslationUnit × Bool → Result Answer
unfolding walk
respond settings request source (tu, cache_hit) = do
  raise_if (has_zero_ast_nodes (some tu.cursor) && has_fatal_diagnostics tu.diagnostics)
      fatal_parse_error
  ok (record {
    ast = walk settings request tu;
    parse_errors = collect_diagnostics tu.diagnostics;
    flags_source = source;
    cache_hit = cache_hit;
  })

unfoldable pub do_get_ast :
    Environment
    → Settings
    → Request
    → TuCache TranslationUnit
    → TuCache TranslationUnit × Result Answer
do_get_ast env settings request c = elim (prepare env settings request) [
  | raise e ↦ (c, raise e)
  | ok plan ↦
      let (c', parsed) =
        get_or_parse_sync env.host env.parse env.before env.after plan.file plan.build plan.flags 0
          c in
      (c', parsed >>= respond settings request plan.source)
]
