-- ===== src/Navigation/Conditionals/Count.antt =====
-- How many conditionals src/cpp_mcp/tools/get_preprocessor_state.py lists.
use cpp_mcp.Base.{
  ℕ, zero, suc, ◌+◌, List, [], ◌∷◌, length, length-append, All, Option, none, some, ◌≡◌, refl, ◌∙◌,
  arith,
}
use cpp_mcp.Navigation.Directive.{Word, ifdef, ifndef, if_, elif, else_, endif, Match}
use cpp_mcp.Navigation.Conditionals.{
  Conditional, Scan, opened, completed, ended, next_branch, close_top, apply_word, scan_line,
  scan_lines, left_open, finish, scan_conditionals,
}

-- How a word changes the number of open directives, and whether it begins a branch.
pub data Effect : Type 0 where
  opens switches closes : Effect

abbrev pub effect : Word → Effect
effect ifdef = opens
effect ifndef = opens
effect if_ = opens
effect elif = switches
effect else_ = switches
effect endif = closes

-- The branches from a line on, by those from the next line on at any number of open directives: one
-- begins at each opening word, and one at `#elif` and `#else` unless nothing is open.
abbrev branches_at : Effect → ℕ → (ℕ → ℕ) → ℕ
branches_at opens depth later = later (suc depth) + 1
branches_at switches zero later = later zero
branches_at switches (suc depth) later = later (suc depth) + 1
branches_at closes zero later = later zero
branches_at closes (suc depth) later = later depth

unfoldable pub branches : ℕ → List (Option Match) → ℕ
branches depth [] = 0
branches depth (none ∷ lines) = branches depth lines
branches depth (some m ∷ lines) = branches_at (effect m.word) depth (λ d. branches d lines)

abbrev size : Scan → ℕ
size s = length s.stack + length s.conditionals

-- No entry of the stack has a result.
abbrev IsPending : Conditional → Type 0
IsPending e = e.evaluated_result ≡ none

module _ (active : List ℕ) (m : Match) (i : ℕ) (later : ℕ → ℕ) where
  opened-IsPending : IsPending (opened m i)
  unfolding opened
  opened-IsPending = refl

  -- What a word adds, and that the entries on the stack have no result.
  abbrev Counts : Effect → List Conditional → List Conditional → Scan → Type 0
  Counts w stack conditionals s =
      (size s + later (length s.stack)
        ≡ length stack + length conditionals + branches_at w (length stack) later)
      × All IsPending s.stack

  Counts-next_branch :
      (stack conditionals : List Conditional)
      → All IsPending stack
      → Counts switches stack conditionals (next_branch active m i stack conditionals)
  unfolding next_branch
  Counts-next_branch [] conditionals p = (omega arith, tt)
  Counts-next_branch (prev ∷ stack) conditionals p = (
    let one : length (completed active prev i) ≡ 1 = rw (p.0, completed) refl in
        omega (arith, one, length-append conditionals (completed active prev i)),
    (opened-IsPending, p.1),
  )

  Counts-close_top :
      (stack conditionals : List Conditional)
      → All IsPending stack
      → Counts closes stack conditionals (close_top active i stack conditionals)
  unfolding close_top
  Counts-close_top [] conditionals p = (omega arith, tt)
  Counts-close_top (top ∷ stack) conditionals p =
      (omega (arith, length-append conditionals (ended active top i ∷ [])), p.1)

  Counts-apply_word :
      (w : Word) (s : Scan)
      → All IsPending s.stack
      → Counts (effect w) s.stack s.conditionals (apply_word active w m i s)
  unfolding apply_word
  Counts-apply_word ifdef s p = (omega arith, (opened-IsPending, p))
  Counts-apply_word ifndef s p = (omega arith, (opened-IsPending, p))
  Counts-apply_word if_ s p = (omega arith, (opened-IsPending, p))
  Counts-apply_word elif s p = Counts-next_branch s.stack s.conditionals p
  Counts-apply_word else_ s p = Counts-next_branch s.stack s.conditionals p
  Counts-apply_word endif s p = Counts-close_top s.stack s.conditionals p

counted :
    (active : List ℕ) (lines : List (Option Match)) (i : ℕ) (s : Scan)
    → All IsPending s.stack
    → size (scan_lines active lines i s) ≡ size s + branches (length s.stack) lines
unfolding scan_lines scan_line branches
counted active [] i s p = omega arith
counted active (none ∷ lines) i s p = counted active lines (i + 1) s p
counted active (some m ∷ lines) i s p =
    let (adds, pending) = Counts-apply_word active m i (λ d. branches d lines) m.word s p in
    counted active lines (i + 1) (apply_word active m.word m i s) pending ∙ adds

pub length-finish :
    (total : ℕ) (stack conditionals : List Conditional)
    → length (finish total stack conditionals) ≡ length stack + length conditionals
unfolding finish
length-finish total [] conditionals = omega arith
length-finish total (e ∷ stack) conditionals = omega (
  arith,
  length-append (finish total stack conditionals) (left_open total e ∷ []),
  length-finish total stack conditionals,
)

-- The scan of a text gives one conditional for each branch that begins in it: at each `#if`, `#ifdef`
-- and `#ifndef`, and at each `#elif` and `#else` where a directive is open; also for the branches that
-- the text leaves open.
pub scan_conditionals-branches :
    (active : List ℕ) (lines : List (Option Match))
    → length (scan_conditionals active lines) ≡ branches 0 lines
unfolding scan_conditionals
scan_conditionals-branches active lines =
    let empty : Scan = record { stack = []; conditionals = [] } in
    let s = scan_lines active lines 1 empty in
    omega
      (arith, length-finish (length lines) s.stack s.conditionals, counted active lines 1 empty tt)
