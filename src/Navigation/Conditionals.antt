-- ===== src/Navigation/Conditionals.antt =====
-- `_scan_conditionals_via_tokens` of src/cpp_mcp/tools/get_preprocessor_state.py: the stack of open
-- directives. The lines of a file are what `readlines` gives, `none` where the file cannot be read.
pub mod Closed
pub mod Count
pub mod Depth
use cpp_mcp.Base.{
  ℕ, ◌+◌, ◌-◌, Text, List, [], ◌∷◌, ◌++◌, any, length, leb, ltb, Option, none, some, Bool, true,
  false, ◌&&◌, ◌≟◌, Eq, nat_eq, list_eq, if◌then◌else◌,
}
use cpp_mcp.Navigation.Tree.{Tree, preorder}
use cpp_mcp.Navigation.Macros.{Cursor}
use cpp_mcp.Navigation.Directive.{
  Word, ifdef, ifndef, if_, elif, else_, endif, Match, match_directive,
}

-- An entry; `directive` is `#` and the word.
pub record Conditional : Type 0 where
  pub directive : Word
  pub condition : Text
  pub evaluated_result : Option Bool
  pub start_line : ℕ
  pub end_line : Option ℕ

-- The stack, its top first, and the list of conditionals.
pub record Scan : Type 0 where
  pub stack : List Conditional
  pub conditionals : List Conditional

unfoldable pub opened : Match → ℕ → Conditional
opened m lineno = record {
  directive = m.word;
  condition = m.condition;
  evaluated_result = none;
  start_line = lineno;
  end_line = none;
}

abbrev pub or_result : Option Bool → Bool → Option Bool
or_result none active = some active
or_result (some b) active = some b

module _ (active_lines : List ℕ) where
  -- `any(start + 1 <= al < lineno for al in active_lines)`
  unfoldable pub branch_active : ℕ → ℕ → Bool
  branch_active start lineno = any (λ al. leb (start + 1) al && ltb al lineno) active_lines

  -- `any(start + 1 <= al <= lineno for al in active_lines)`
  unfoldable pub last_active : ℕ → ℕ → Bool
  last_active start lineno = any (λ al. leb (start + 1) al && leb al lineno) active_lines

  -- At `#elif` and `#else` a branch that has no result yet is completed.
  unfoldable pub completed : Conditional → ℕ → List Conditional
  unfolding branch_active
  completed prev lineno = elim prev.evaluated_result [
    | none ↦
        record prev {
          evaluated_result = some (branch_active prev.start_line lineno);
          end_line = some (lineno - 1);
        }
        ∷ []
    | some b ↦ []
  ]

  unfoldable pub ended : Conditional → ℕ → Conditional
  unfolding last_active
  ended top lineno = record top {
    evaluated_result = or_result top.evaluated_result (last_active top.start_line lineno);
    end_line = some lineno;
  }

  unfoldable pub next_branch : Match → ℕ → List Conditional → List Conditional → Scan
  unfolding completed opened
  next_branch m lineno [] conditionals = record { stack = []; conditionals = conditionals }
  next_branch m lineno (prev ∷ stack) conditionals = record {
    stack = opened m lineno ∷ stack;
    conditionals = conditionals ++ completed prev lineno;
  }

  unfoldable pub close_top : ℕ → List Conditional → List Conditional → Scan
  unfolding ended
  close_top lineno [] conditionals = record { stack = []; conditionals = conditionals }
  close_top lineno (top ∷ stack) conditionals = record {
    stack = stack;
    conditionals = conditionals ++ ended top lineno ∷ [];
  }

  abbrev open_branch : Match → ℕ → Scan → Scan
  open_branch m lineno s = record s { stack = opened m lineno ∷ s.stack }

  unfoldable pub apply_word : Word → Match → ℕ → Scan → Scan
  unfolding next_branch close_top opened
  apply_word ifdef m lineno s = open_branch m lineno s
  apply_word ifndef m lineno s = open_branch m lineno s
  apply_word if_ m lineno s = open_branch m lineno s
  apply_word elif m lineno s = next_branch m lineno s.stack s.conditionals
  apply_word else_ m lineno s = next_branch m lineno s.stack s.conditionals
  apply_word endif m lineno s = close_top lineno s.stack s.conditionals

  -- A line that is no directive changes nothing.
  unfoldable pub scan_line : Option Match → ℕ → Scan → Scan
  unfolding apply_word
  scan_line none lineno s = s
  scan_line (some m) lineno s = apply_word m.word m lineno s

  unfoldable pub scan_lines : List (Option Match) → ℕ → Scan → Scan
  unfolding scan_line
  scan_lines [] lineno s = s
  scan_lines (line ∷ lines) lineno s = scan_lines lines (lineno + 1) (scan_line line lineno s)

abbrev pub or_line : ℕ → Option ℕ → Option ℕ
or_line total none = some total
or_line total (some n) = some n

-- What is left open at the end of the file.
unfoldable pub left_open : ℕ → Conditional → Conditional
left_open total entry = record entry {
  evaluated_result = or_result entry.evaluated_result false;
  end_line = or_line total entry.end_line;
}

-- The stack from its bottom, after the conditionals.
unfoldable pub finish : ℕ → List Conditional → List Conditional → List Conditional
unfolding left_open
finish total [] conditionals = conditionals
finish total (entry ∷ stack) conditionals =
    finish total stack conditionals ++ left_open total entry ∷ []

unfoldable pub scan_conditionals : List ℕ → List (Option Match) → List Conditional
unfolding scan_lines finish
scan_conditionals active_lines lines =
    let s = scan_lines active_lines lines 1 (record { stack = []; conditionals = [] }) in
    finish (length lines) s.stack s.conditionals

-- `_collect_lines`, as a list of the lines of the set
unfoldable pub collect_lines : Text → List Cursor → List ℕ
collect_lines main_file [] = []
collect_lines main_file (c ∷ cursors) =
    let rest = collect_lines main_file cursors in
    elim c.file [ none ↦ rest | some name ↦ if name ≟ main_file then c.line ∷ rest else rest ]

unfoldable pub match_lines : (ℕ → Bool) → List Text → List (Option Match)
unfolding match_directive
match_lines is_alnum [] = []
match_lines is_alnum (line ∷ lines) = match_directive is_alnum line ∷ match_lines is_alnum lines

-- Without a name of the unit, or without its text, there are no conditionals.
unfoldable pub scan_conditionals_via_tokens :
    (ℕ → Bool) → (Text → Option (List Text)) → Option Text → Tree Cursor → List Conditional
unfolding match_lines collect_lines scan_conditionals preorder
scan_conditionals_via_tokens is_alnum readlines none tree = []
scan_conditionals_via_tokens is_alnum readlines (some main_file) tree = elim (readlines main_file) [
  | none ↦ []
  | some lines ↦
      scan_conditionals (collect_lines main_file (preorder tree)) (match_lines is_alnum lines)
]
