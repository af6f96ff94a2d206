-- ===== src/Navigation/Preprocessor.antt =====
-- `_do_get_preprocessor_state` of src/cpp_mcp/tools/get_preprocessor_state.py. `_collect_conditionals` is its
-- scan of the text: its other way is for a scan that raises, which the scan that is modelled never does.
use cpp_mcp.Base.{ℕ, Text, List, Option, Bool}
use cpp_mcp.Errors.{Result, ok}
use cpp_mcp.CompileDb.{FlagsSource}
use cpp_mcp.Cache.{TuCache}
use cpp_mcp.Navigation.Tree.{Tree}
use cpp_mcp.Navigation.Parsed.{Environment, Request, Parsed, on_unit}
use cpp_mcp.Navigation.Macros.{Cursor, Macro, collect_macros}
use cpp_mcp.Navigation.Conditionals.{Conditional, scan_conditionals_via_tokens}

-- `_PARSE_DETAILED`
abbrev pub parse_detailed : ℕ
parse_detailed = 1

-- A unit: its cursors and its name, `none` where that access raises.
pub record DetailedUnit : Type 0 where
  pub tree : Tree Cursor
  pub spelling : Option Text

-- `readlines` of a file, and the letters and digits outside ASCII.
pub record Host : Type 0 where
  pub readlines : Text → Option (List Text)
  pub is_alnum : ℕ → Bool

pub record Answer : Type 0 where
  pub macros : List Macro
  pub conditionals : List Conditional
  pub flags_source : FlagsSource
  pub cache_hit : Bool

unfoldable pub preprocessor_answer : Host → Parsed DetailedUnit → Answer
unfolding collect_macros scan_conditionals_via_tokens
preprocessor_answer host unit = record {
  macros = collect_macros unit.tu.tree;
  conditionals =
      scan_conditionals_via_tokens host.is_alnum host.readlines unit.tu.spelling unit.tu.tree;
  flags_source = unit.flags_source;
  cache_hit = unit.cache_hit;
}

unfoldable pub do_get_preprocessor_state :
    Environment DetailedUnit
    → Host
    → Request
    → TuCache DetailedUnit
    → TuCache DetailedUnit × Result Answer
unfolding on_unit preprocessor_answer
do_get_preprocessor_state env host request =
    on_unit env request parse_detailed (λ unit. ok (preprocessor_answer host unit))
