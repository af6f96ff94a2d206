-- ===== src/Tools/Tests.antt =====
-- The handler of src/cpp_mcp/tools/get_ast.py with its parts src/cpp_mcp/core/compile_db.py and
-- src/cpp_mcp/core/clang_session.py on one request, and the theorems at it.
use cpp_mcp.Base.{
  ℕ, Text, Bool, true, false, List, [], ◌∷◌, ◌++◌, none, some, ◌≡◌, refl, arith, pos, codes, ◌≟◌,
  list_eq, nat_eq, starts_with, elem, list_beq_iff, ap, subst,
}
use cpp_mcp.Errors.{Result, ok, raise, value_error, is_ok}
use cpp_mcp.Ast.Cursor.{cursor, nil}
use cpp_mcp.Ast.Diagnostics.{has_zero_ast_nodes, has_fatal_diagnostics, collect_diagnostics}
use cpp_mcp.OrderedDict.{get, set_item, move_to_end}
use cpp_mcp.Paths.Text.{split, parts, join, common_prefix, commonpath}
use cpp_mcp.Paths.Guard.{validate_path, has_dotdot, pure_parts, under_root, under_any_root}
use cpp_mcp.Paths.Roots.{Inside, under_root_iff}
use cpp_mcp.CompileDb.{
  BuildTree, Database, resolve_flags, from_database, extract_flags, flags_of_command, inner,
  but_last,
}
use cpp_mcp.Cache.{
  TuCache, get_or_parse, check, insert, make_room, new_entry, current_mtime, new_mtime,
}
use cpp_mcp.Cache.Keys.{Host, make_key}
use cpp_mcp.Cache.Invariant.{IsValid}
use cpp_mcp.Session.{
  IndexParse, effective_flags, strip_options, session_parser, get_or_parse_sync, parser_gets_flags,
}
use cpp_mcp.Tools.GetAst.{
  TranslationUnit, Environment, Request, Settings, do_get_ast, prepare, walk, respond,
}
use cpp_mcp.Tools.GetAst.Confined.{parses_only_allowed_files}

program : Unit {0}
unfolding do_get_ast prepare walk respond get_or_parse_sync effective_flags strip_options
    session_parser get_or_parse check insert make_room new_entry current_mtime new_mtime make_key
    get set_item move_to_end resolve_flags from_database extract_flags flags_of_command inner
    but_last validate_path has_dotdot pure_parts under_root under_any_root split parts join
    common_prefix commonpath starts_with has_zero_ast_nodes has_fatal_diagnostics
    collect_diagnostics
program = tt

abbrev source : Text
source = codes "/src/a.cpp"

-- A command for any file, with a define and an include directory.
abbrev db_flags : List Text
db_flags = codes "-DX" ∷ codes "-I/inc" ∷ []

abbrev database : Database
database path = some ((codes "cc" ∷ db_flags ++ path ∷ []) ∷ [])

abbrev tree : BuildTree
tree = record { is_file = λ p. p ≟ source; from_directory = λ p. ok database }

-- A parser that fails outside /src and gives a unit without declarations inside.
abbrev bare : TranslationUnit
bare = record {
  cursor =
      cursor
        (record {
          kind = some "TRANSLATION_UNIT";
          type_spelling = none;
          usr = none;
          spelling = none;
          storage_class = none;
          extent = none;
        })
        nil;
  diagnostics = [];
}

abbrev root : Text
root = codes "/src"

abbrev parse_if : Bool → Result TranslationUnit
parse_if true = ok bare
parse_if false = raise value_error

abbrev parse : IndexParse TranslationUnit
parse path flags options = parse_if (under_root path root)

parser_gets_flags_example :
    session_parser parse 3 source (effective_flags db_flags 3) ≡ parse source db_flags 3
unfolding starts_with
parser_gets_flags_example = parser_gets_flags parse source db_flags 3 (refl, (refl, tt))

abbrev host : Host
host = record { realpath = λ p. p; flags_sha1 = λ flags. elim flags [ [] ↦ [] | f ∷ rest ↦ f ] }

told_apart :
    host.flags_sha1 (effective_flags [] 0) ≡ host.flags_sha1 (effective_flags [] 3)
    → effective_flags [] 0 ≡ effective_flags [] 3
unfolding effective_flags
told_apart h = absurd (cc h)

abbrev env : Environment
env = record {
  fs = record { realpath = λ p. p; exists = λ p. true; is_file = λ p. p ≟ source };
  from_directory = λ p. ok database;
  host = host;
  parse = parse;
  before = λ p. some (pos 7);
  after = λ p. some (pos 7);
}

abbrev settings : Settings
settings = record {
  allowed_roots = root ∷ [];
  default_flags = [];
  max_nodes = 10;
  max_bytes = 1000;
}

abbrev request : Request
request = record {
  file_path = source;
  build_path = some (codes "/src/build");
  format = codes "Graph";
  depth = 3;
  range = record { start_line = none; end_line = none };
}

abbrev empty : TuCache TranslationUnit
empty = record { capacity = 1; store = []; hits = 0; misses = 0; evictions = 0 }

empty-IsValid : IsValid empty
empty-IsValid = record { positive = omega arith; bounded = omega arith; distinct = tt }

-- The request is answered: the call is not one that the guard refuses.
answered : is_ok ((do_get_ast env settings request empty).1) ≡ true
unfolding program
answered = refl

abbrev everywhere : IndexParse TranslationUnit
everywhere path flags options = ok bare

agrees :
    (path r : Text) (flags : List Text) (options : ℕ)
    → elem r (root ∷ []) ≡ true
    → Inside path r
    → parse path flags options ≡ everywhere path flags options
agrees path r flags options member inside =
    let same : r ≡ root = ground (arith, list_beq_iff r root) in
    let under : under_root path root ≡ true =
      (under_root_iff path root).1 (subst (Inside path) same inside) in
    ap parse_if under

parses_only_allowed_files_example :
    do_get_ast env settings request empty
    ≡ do_get_ast (record env { parse = everywhere }) settings request empty
parses_only_allowed_files_example =
    parses_only_allowed_files env everywhere settings request empty (λ p. refl) agrees
