-- ===== src/Navigation/Tests.antt =====
-- The tools of src/cpp_mcp/tools that read a unit, on small units, and the theorems at them.
use cpp_mcp.Base.{
  ◌++◌, ℕ, Text, Bool, true, false, List, [], ◌∷◌, none, some, ◌≡◌, ◌↔◌, refl, arith, pos, codes,
  elem, Exists, All, length, Option, IsNodup, list_eq, nat_eq, pair_eq, list_beq_iff, ap, subst,
  starts_with, strip,
}
use cpp_mcp.Errors.{Result, ok, raise, value_error}
use cpp_mcp.OrderedDict.{get, IsDistinct}
use cpp_mcp.Paths.Text.{parts, commonpath}
use cpp_mcp.Paths.Guard.{validate_path, has_dotdot, under_root, under_any_root}
use cpp_mcp.Paths.Roots.{Inside, under_root_iff}
use cpp_mcp.Positions.{meaningful, cursor_at}
use cpp_mcp.CompileDb.{resolve_flags, default}
use cpp_mcp.Cache.{TuCache, get_or_parse, check}
use cpp_mcp.Session.{IndexParse, get_or_parse_sync, session_parser}
use cpp_mcp.Navigation.Tree.{Tree, Trees, node, nil, cons, preorder}
use cpp_mcp.Navigation.Parsed.{Environment, Request, Parsed, prepare, parse_unit, on_unit}
use cpp_mcp.Navigation.Parsed.Confined.{on_unit_confined}
use cpp_mcp.Navigation.References
use cpp_mcp.Navigation.References.{
  Reference, SourceUnit, Files, collect_references, collect_from, refers_at, context_snippet,
  stripped_line, max_references,
}
use cpp_mcp.Navigation.References.Bounds.{Limits, do_get_references_limited}
use cpp_mcp.Navigation.HeaderInfo
use cpp_mcp.Navigation.HeaderInfo.{
  Inclusion, HeaderUnit, header_answer, collect_includes, include_file, visit_exported,
  exported_file, cursor_kind_name,
}
use cpp_mcp.Navigation.HeaderInfo.Orphans.{Unused, orphaned_includes_lem}
use cpp_mcp.Navigation.Macros
use cpp_mcp.Navigation.Macros.{Macro, collect_macros, macros_from, macro_of}
use cpp_mcp.Navigation.Macros.First.{named, first_definition, collect_macros_lem}
use cpp_mcp.Navigation.Directive.{Word, Match, match_directive, match_word}
use cpp_mcp.Navigation.Conditionals.{
  Conditional, scan_conditionals, scan_conditionals_via_tokens, match_lines, collect_lines,
}
use cpp_mcp.Navigation.Conditionals.Closed.{IsClosed, IsLeftOpen, scan_conditionals-IsClosed}
use cpp_mcp.Navigation.Conditionals.Depth.{left_after}
use cpp_mcp.Navigation.Conditionals.Count.{branches, scan_conditionals-branches}
use cpp_mcp.Navigation.References.Places.{places, RefersTo, HasSnippet, collect_references_lem}

program : Unit {0}
unfolding collect_references collect_from refers_at context_snippet stripped_line preorder
    References.do_get_references prepare validate_path has_dotdot parts under_any_root under_root
    commonpath resolve_flags get_or_parse_sync get_or_parse check get session_parser cursor_at strip
    header_answer collect_includes include_file visit_exported exported_file cursor_kind_name
    collect_macros macros_from macro_of scan_conditionals_via_tokens match_lines match_directive
    match_word scan_conditionals collect_lines starts_with
program = tt

-- A use of a symbol, the same place again, and its declaration.
abbrev use_of : ℕ → References.Cursor
use_of line = record {
  file = some (codes "/src/a.cpp");
  line = line;
  column = 3;
  usr = [];
  referenced = some (codes "c:@f");
}

abbrev declaration : References.Cursor
declaration = record (use_of 1) { usr = codes "c:@f" }

abbrev uses : Tree References.Cursor
uses =
    node (record (use_of 0) { file = none; referenced = none })
      (cons (node declaration nil)
        (cons (node (use_of 2) (cons (node (use_of 2) nil) nil)) (cons (node (use_of 3) nil) nil)))

abbrev read_text : Text → Option Text
read_text file = some (codes "int f();\n  f();\nf()")

uses_found :
    places (collect_references read_text uses (codes "c:@f"))
    ≡ (codes "/src/a.cpp", (2, 3)) ∷ (codes "/src/a.cpp", (3, 3)) ∷ []
unfolding program
uses_found = refl

collect_references_lem_example :
    ((place : References.Place)
      → (elem place (places (collect_references read_text uses (codes "c:@f"))) ≡ true)
        ↔ Exists (RefersTo (codes "c:@f") place) (preorder uses))
    × IsNodup (places (collect_references read_text uses (codes "c:@f")))
    × All (HasSnippet read_text) (collect_references read_text uses (codes "c:@f"))
collect_references_lem_example = collect_references_lem read_text uses (codes "c:@f")

abbrev root : Text
root = codes "/src"

abbrev source : Text
source = codes "/src/a.cpp"

module _ {TU : Type 0} (unit : TU) where
  -- A parser that fails outside /src.
  abbrev parse_if : Bool → Result TU
  parse_if true = ok unit
  parse_if false = raise value_error

  abbrev parse : IndexParse TU
  parse path flags options = parse_if (under_root path root)

  abbrev everywhere : IndexParse TU
  everywhere path flags options = ok unit

  abbrev env : Environment TU
  env = record {
    fs = record { realpath = λ p. p; exists = λ p. true; is_file = λ p. true };
    from_directory = λ p. raise value_error;
    host = record { realpath = λ p. p; flags_sha1 = λ flags. [] };
    parse = parse;
    before = λ p. some (pos 7);
    after = λ p. some (pos 7);
  }

  agrees :
      (path r : Text) (flags : List Text)
      → elem r (root ∷ []) ≡ true
      → Inside path r
      → parse path flags 0 ≡ everywhere path flags 0
  agrees path r flags member inside =
      let same : r ≡ root = ground (arith, list_beq_iff r root) in
      let under : under_root path root ≡ true =
        (under_root_iff path root).1 (subst (Inside path) same inside) in
      ap parse_if under

abbrev empty : {TU : Type 0} → TuCache TU
empty = record { capacity = 1; store = []; hits = 0; misses = 0; evictions = 0 }

abbrev request : Request
request = record {
  file_path = source;
  build_path = none;
  allowed_roots = root ∷ [];
  default_flags = [];
}

abbrev unit : SourceUnit
unit = record {
  tree = uses;
  view = record {
    has_file = true;
    from_location = λ line col. some (codes "c:@f");
    kind_of = λ usr. meaningful;
  };
}

abbrev files : Files
files = record { first = read_text; second = read_text; read_text = read_text }

abbrev answer : References.Answer
answer = record {
  usr = codes "c:@f";
  references =
      record { place = (source, (2, 3)); context_snippet = codes "f();" }
      ∷ record { place = (source, (3, 3)); context_snippet = codes "f()" }
      ∷ [];
  truncated = false;
  omitted_count = 0;
  flags_source = default;
  cache_hit = false;
}

answered :
    (References.do_get_references (env unit) files request (pos 1) (pos 5) empty).1 ≡ ok answer
unfolding program
answered = refl

do_get_references_limited_example :
    (unit' : Parsed SourceUnit) × ((parse_unit (env unit) request 0 empty).1 ≡ ok unit')
    × (cursor_at unit'.tu.view (files.first unit'.file) (files.second unit'.file) (pos 1) (pos 5)
        ≡ ok answer.usr)
    × Limits max_references answer (collect_references files.read_text unit'.tu.tree answer.usr)
do_get_references_limited_example =
    do_get_references_limited (env unit) files request (pos 1) (pos 5) empty answer answered

on_unit_confined_example :
    on_unit (env unit) request 0 (References.references_of files (pos 1) (pos 5)) empty
    ≡ on_unit
        (record (env unit) { parse = everywhere unit })
        request
        0
        (References.references_of files (pos 1) (pos 5))
        empty
on_unit_confined_example =
    on_unit_confined (env unit) (everywhere unit) request 0
      (References.references_of files (pos 1) (pos 5)) empty (λ p. refl) (agrees unit)

abbrev inclusions : List Inclusion
inclusions =
    record { name = some (codes "a.h"); depth = 1 }
    ∷ record { name = some (codes "b.h"); depth = 2 }
    ∷ record { name = some (codes "b.h"); depth = 1 }
    ∷ []

abbrev translation_unit : HeaderInfo.Cursor
translation_unit = record {
  kind = some (codes "TRANSLATION_UNIT");
  file = none;
  line = 0;
  usr = none;
  spelling = some source;
  displayname = some source;
  referenced = none;
}

-- A function of each header, and a use of that of the first.
abbrev function_of : Text → Text → HeaderInfo.Cursor
function_of file usr = record {
  kind = some (codes "FUNCTION_DECL");
  file = some file;
  line = 1;
  usr = some usr;
  spelling = some usr;
  displayname = some usr;
  referenced = some usr;
}

abbrev header_children : Trees HeaderInfo.Cursor
header_children = cons (node (function_of (codes "a.h") (codes "f")) nil) (
    cons (node (function_of (codes "b.h") (codes "g")) nil)
      (cons (node (function_of source (codes "f")) nil) nil))

abbrev header_unit : Parsed HeaderUnit
header_unit = record {
  file = source;
  flags_source = default;
  tu = record {
    tree = node translation_unit header_children;
    includes = some inclusions;
    diagnostics = codes "a.cpp:1: 'x.h' file not found" ∷ [];
  };
  cache_hit = false;
}

header_listed :
    ((header_answer header_unit).orphaned_includes ≡ codes "b.h" ∷ [])
    × ((header_answer header_unit).missing_includes ≡ codes "x.h" ∷ [])
unfolding program
header_listed = (refl, refl)

orphaned_includes_lem_example :
    (elem (codes "b.h") (header_answer header_unit).orphaned_includes ≡ true)
    ↔ (elem (codes "b.h") (header_answer header_unit).direct_includes ≡ true)
      × Unused header_unit.tu.tree header_unit.file (codes "b.h")
orphaned_includes_lem_example = orphaned_includes_lem header_unit (codes "b.h")

abbrev define : ℕ → Text → Macros.Cursor
define line value = record {
  kind = some (codes "MACRO_DEFINITION");
  spelling = some (codes "A");
  file = some source;
  line = line;
  tokens = some (codes "A" ∷ value ∷ []);
}

-- A macro that is defined again.
abbrev defines : Tree Macros.Cursor
defines =
    node (record (define 0 []) { kind = some (codes "TRANSLATION_UNIT"); spelling = none })
      (cons (node (define 1 (codes "1")) nil) (cons (node (define 3 (codes "2")) nil) nil))

collect_macros_lem_example :
    IsDistinct (named (collect_macros defines))
    × ((name : Text)
        → get name (named (collect_macros defines)) ≡ first_definition name (preorder defines))
collect_macros_lem_example = collect_macros_lem defines

abbrev text_lines : List Text
text_lines =
    codes "# ifdef A\n"
    ∷ codes "int x;\n"
    ∷ codes "#else // not A\n"
    ∷ codes "#endif\n"
    ∷ codes "#if B\n"
    ∷ []

abbrev found : List Conditional
found =
    record {
      directive = Word.ifdef;
      condition = codes "A";
      evaluated_result = some true;
      start_line = 1;
      end_line = some 2;
    }
    ∷ record {
      directive = Word.else_;
      condition = codes "// not A";
      evaluated_result = some false;
      start_line = 3;
      end_line = some 4;
    }
    ∷ record {
      directive = Word.if_;
      condition = codes "B";
      evaluated_result = some false;
      start_line = 5;
      end_line = some 5;
    }
    ∷ []

-- A declaration on the second line.
scanned :
    scan_conditionals_via_tokens
      (λ c. false)
      (λ file. some text_lines)
      (some source)
      (node (define 2 []) nil)
    ≡ found
unfolding program
scanned = refl

abbrev matched : List (Option Match)
matched = match_lines (λ c. false) text_lines

scan_conditionals-IsClosed_example :
    (closed unclosed : List Conditional) × (scan_conditionals (2 ∷ []) matched ≡ closed ++ unclosed)
    × All (IsClosed (2 ∷ []) (length matched)) closed
    × All (IsLeftOpen (2 ∷ []) (length matched)) unclosed
    × (length unclosed ≡ left_after 0 matched)
scan_conditionals-IsClosed_example = scan_conditionals-IsClosed (2 ∷ []) matched

scan_conditionals-branches_example :
    length (scan_conditionals (2 ∷ []) matched) ≡ branches 0 matched
scan_conditionals-branches_example = scan_conditionals-branches (2 ∷ []) matched
