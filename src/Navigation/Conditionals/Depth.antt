-- ===== src/Navigation/Conditionals/Depth.antt =====
-- How many directives a text leaves open for src/cpp_mcp/tools/get_preprocessor_state.py.
use cpp_mcp.Base.{
  ℕ, zero, suc, ◌+◌, List, [], ◌∷◌, length, Option, none, some, ◌≡◌, refl, ap, ◌∙◌, arith,
}
use cpp_mcp.Navigation.Directive.{Word, ifdef, ifndef, if_, elif, else_, endif, Match}
use cpp_mcp.Navigation.Conditionals.{
  Conditional, Scan, next_branch, close_top, apply_word, scan_line, scan_lines,
}
use cpp_mcp.Navigation.Conditionals.Count.{Effect, opens, switches, closes, effect}

-- How many directives are open after one.
abbrev depth_after : Effect → ℕ → ℕ
depth_after opens depth = suc depth
depth_after switches depth = depth
depth_after closes zero = zero
depth_after closes (suc depth) = depth

-- How many directives are open after some lines, of `depth` that are open before them.
unfoldable pub left_after : ℕ → List (Option Match) → ℕ
left_after depth [] = depth
left_after depth (none ∷ lines) = left_after depth lines
left_after depth (some m ∷ lines) = left_after (depth_after (effect m.word) depth) lines

length-next_branch :
    (active : List ℕ) (m : Match) (i : ℕ) (stack conditionals : List Conditional)
    → length (next_branch active m i stack conditionals).stack ≡ length stack
unfolding next_branch
length-next_branch active m i [] conditionals = refl
length-next_branch active m i (e ∷ stack) conditionals = refl

length-close_top :
    (active : List ℕ) (i : ℕ) (stack conditionals : List Conditional)
    → length (close_top active i stack conditionals).stack ≡ depth_after closes (length stack)
unfolding close_top
length-close_top active i [] conditionals = refl
length-close_top active i (e ∷ stack) conditionals = refl

length-apply_word :
    (active : List ℕ) (w : Word) (m : Match) (i : ℕ) (s : Scan)
    → length (apply_word active w m i s).stack ≡ depth_after (effect w) (length s.stack)
unfolding apply_word
length-apply_word active ifdef m i s = omega arith
length-apply_word active ifndef m i s = omega arith
length-apply_word active if_ m i s = omega arith
length-apply_word active elif m i s = length-next_branch active m i s.stack s.conditionals
length-apply_word active else_ m i s = length-next_branch active m i s.stack s.conditionals
length-apply_word active endif m i s = length-close_top active i s.stack s.conditionals

pub length-scan_lines :
    (active : List ℕ) (lines : List (Option Match)) (i : ℕ) (s : Scan)
    → length (scan_lines active lines i s).stack ≡ left_after (length s.stack) lines
unfolding scan_lines scan_line left_after
length-scan_lines active [] i s = refl
length-scan_lines active (none ∷ lines) i s = length-scan_lines active lines (i + 1) s
length-scan_lines active (some m ∷ lines) i s =
    length-scan_lines active lines (i + 1) (apply_word active m.word m i s)
    ∙ ap (λ d. left_after d lines) (length-apply_word active m.word m i s)
