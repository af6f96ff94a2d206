-- ===== src/Navigation/Conditionals/Closed.antt =====
-- The extents and the results of the conditionals of src/cpp_mcp/tools/get_preprocessor_state.py.
use mathlib.Core.Path.{fun_ext}
use mathlib.Core.List.{append-nil, append_assoc}
use cpp_mcp.Base.{
  ℕ, ◌+◌, ◌-◌, ◌≤◌, ◌<◌, List, [], ◌∷◌, ◌++◌, any, length, leb, ltb, All, All-append, All-map,
  Option, none, some, Bool, false, ◌&&◌, ◌≡◌, refl, ap, sym, ◌∙◌, arith,
}
use cpp_mcp.Navigation.Conditionals.Count.{length-finish}
use cpp_mcp.Navigation.Conditionals.Depth.{left_after, length-scan_lines}
use cpp_mcp.Navigation.Directive.{Word, ifdef, ifndef, if_, elif, else_, endif, Match}
use cpp_mcp.Navigation.Conditionals.{
  Conditional, Scan, or_result, or_line, opened, branch_active, last_active, completed, ended,
  next_branch, close_top, apply_word, scan_line, scan_lines, left_open, finish, scan_conditionals,
}

-- An entry of the stack before line `i` is scanned.
pub record IsOpen (i : ℕ) (e : Conditional) : Type 0 where
  pub evaluated_result : e.evaluated_result ≡ none
  pub end_line : e.end_line ≡ none
  pub positive : 1 ≤ e.start_line
  pub above : e.start_line < i

module _ (active : List ℕ) (total : ℕ) where
  -- There is an active line after the one and up to the other.
  abbrev pub within : ℕ → ℕ → Bool
  within start last = any (λ al. ltb start al && leb al last) active

  -- A conditional that a directive ended at a line: the result says whether a line of it is active.
  pub record EndsAt (e : Conditional) (last : ℕ) : Type 0 where
    pub end_line : e.end_line ≡ some last
    pub positive : 1 ≤ e.start_line
    pub ordered : e.start_line ≤ last
    pub in_file : last ≤ total
    pub result : e.evaluated_result ≡ some (within e.start_line last)

  abbrev pub IsClosed : Conditional → Type 0
  IsClosed e = (last : ℕ) × EndsAt e last

  -- A conditional that no directive ended: it ends with the text, and its result is false.
  pub record IsLeftOpen (e : Conditional) : Type 0 where
    pub end_line : e.end_line ≡ some total
    pub positive : 1 ≤ e.start_line
    pub in_file : e.start_line ≤ total
    pub result : e.evaluated_result ≡ some false

  branch_active-within : (start i : ℕ) → 1 ≤ i → branch_active active start i ≡ within start (i - 1)
  unfolding branch_active
  branch_active-within start i h = ap (λ p. any p active) (fun_ext (λ al. ground arith))

  last_active-within : (start i : ℕ) → last_active active start i ≡ within start i
  unfolding last_active
  last_active-within start i = ap (λ p. any p active) (fun_ext (λ al. ground arith))

  completed-IsClosed :
      (prev : Conditional) (i : ℕ)
      → IsOpen i prev
      → 1 ≤ i
      → i ≤ total
      → All IsClosed (completed active prev i)
  unfolding completed
  completed-IsClosed prev i o h k =
      rw (o.evaluated_result, completed)
        (
          (
            i - 1,
            record {
              end_line = refl;
              positive = o.positive;
              ordered = omega (arith, o.above);
              in_file = omega arith;
              result = ap some (branch_active-within prev.start_line i h);
            },
          ),
          tt,
        )

  ended-IsClosed :
      (top : Conditional) (i : ℕ) → IsOpen i top → i ≤ total → IsClosed (ended active top i)
  unfolding ended
  ended-IsClosed top i o k = (
    i,
    record {
      end_line = refl;
      positive = o.positive;
      ordered = omega (arith, o.above);
      in_file = k;
      result =
          ap (λ r. or_result r (last_active active top.start_line i)) o.evaluated_result
          ∙ ap some (last_active-within top.start_line i);
    },
  )

  IsOpen-next : (i : ℕ) (e : Conditional) → IsOpen i e → IsOpen (i + 1) e
  IsOpen-next i e o = record {
    evaluated_result = o.evaluated_result;
    end_line = o.end_line;
    positive = o.positive;
    above = omega (arith, o.above);
  }

  -- What holds before line `i` is scanned.
  pub record Sound (i : ℕ) (s : Scan) : Type 0 where
    pub stack : All (IsOpen i) s.stack
    pub conditionals : All IsClosed s.conditionals

  opened-IsOpen : (m : Match) (i : ℕ) → 1 ≤ i → IsOpen (i + 1) (opened m i)
  unfolding opened
  opened-IsOpen m i h = record {
    evaluated_result = refl;
    end_line = refl;
    positive = h;
    above = omega arith;
  }

  one_more : (i : ℕ) (stack : List Conditional) → All (IsOpen i) stack → All (IsOpen (i + 1)) stack
  one_more i stack = All-map (IsOpen i) (IsOpen (i + 1)) stack (IsOpen-next i)

  next_branch-Sound :
      (m : Match) (i : ℕ) (stack conditionals : List Conditional)
      → 1 ≤ i
      → i ≤ total
      → All (IsOpen i) stack
      → All IsClosed conditionals
      → Sound (i + 1) (next_branch active m i stack conditionals)
  unfolding next_branch
  next_branch-Sound m i [] conditionals h k o c = record { stack = tt; conditionals = c }
  next_branch-Sound m i (prev ∷ stack) conditionals h k o c = record {
    stack = (opened-IsOpen m i h, one_more i stack o.1);
    conditionals =
        All-append IsClosed conditionals (completed active prev i) c
          (completed-IsClosed prev i o.0 h k);
  }

  close_top-Sound :
      (i : ℕ) (stack conditionals : List Conditional)
      → i ≤ total
      → All (IsOpen i) stack
      → All IsClosed conditionals
      → Sound (i + 1) (close_top active i stack conditionals)
  unfolding close_top
  close_top-Sound i [] conditionals k o c = record { stack = tt; conditionals = c }
  close_top-Sound i (top ∷ stack) conditionals k o c = record {
    stack = one_more i stack o.1;
    conditionals =
        All-append IsClosed conditionals (ended active top i ∷ []) c
          (ended-IsClosed top i o.0 k, tt);
  }

  open_branch-Sound :
      (m : Match) (i : ℕ) (s : Scan)
      → 1 ≤ i
      → Sound i s
      → Sound (i + 1) (record s { stack = opened m i ∷ s.stack })
  open_branch-Sound m i s h v = record {
    stack = (opened-IsOpen m i h, one_more i s.stack v.stack);
    conditionals = v.conditionals;
  }

  apply_word-Sound :
      (w : Word) (m : Match) (i : ℕ) (s : Scan)
      → 1 ≤ i
      → i ≤ total
      → Sound i s
      → Sound (i + 1) (apply_word active w m i s)
  unfolding apply_word
  apply_word-Sound ifdef m i s h k v = open_branch-Sound m i s h v
  apply_word-Sound ifndef m i s h k v = open_branch-Sound m i s h v
  apply_word-Sound if_ m i s h k v = open_branch-Sound m i s h v
  apply_word-Sound elif m i s h k v =
      next_branch-Sound m i s.stack s.conditionals h k v.stack v.conditionals
  apply_word-Sound else_ m i s h k v =
      next_branch-Sound m i s.stack s.conditionals h k v.stack v.conditionals
  apply_word-Sound endif m i s h k v =
      close_top-Sound i s.stack s.conditionals k v.stack v.conditionals

  scan_line-Sound :
      (line : Option Match) (i : ℕ) (s : Scan)
      → 1 ≤ i
      → i ≤ total
      → Sound i s
      → Sound (i + 1) (scan_line active line i s)
  unfolding scan_line
  scan_line-Sound none i s h k v = record {
    stack = one_more i s.stack v.stack;
    conditionals = v.conditionals;
  }
  scan_line-Sound (some m) i s h k v = apply_word-Sound m.word m i s h k v

  scan_lines-Sound :
      (lines : List (Option Match)) (i : ℕ) (s : Scan)
      → 1 ≤ i
      → i + length lines ≡ total + 1
      → Sound i s
      → Sound (total + 1) (scan_lines active lines i s)
  unfolding scan_lines
  scan_lines-Sound [] i s h k v = let e : i ≡ total + 1 = omega arith in rw (← e) v
  scan_lines-Sound (line ∷ lines) i s h k v =
      scan_lines-Sound lines (i + 1) (scan_line active line i s) (omega arith) (omega arith)
        (scan_line-Sound line i s h (omega arith) v)

  left_open-IsLeftOpen : (e : Conditional) → IsOpen (total + 1) e → IsLeftOpen (left_open total e)
  unfolding left_open
  left_open-IsLeftOpen e o = record {
    end_line = ap (or_line total) o.end_line;
    positive = o.positive;
    in_file = omega (arith, o.above);
    result = ap (λ r. or_result r false) o.evaluated_result;
  }

  finish-IsLeftOpen :
      (stack : List Conditional)
      → All (IsOpen (total + 1)) stack
      → All IsLeftOpen (finish total stack [])
  unfolding finish
  finish-IsLeftOpen [] o = tt
  finish-IsLeftOpen (e ∷ stack) o =
      All-append IsLeftOpen (finish total stack []) (left_open total e ∷ [])
        (finish-IsLeftOpen stack o.1) (left_open-IsLeftOpen e o.0, tt)

finish-append :
    (total : ℕ) (stack conditionals : List Conditional)
    → finish total stack conditionals ≡ conditionals ++ finish total stack []
unfolding finish
finish-append total [] conditionals = sym (append-nil conditionals)
finish-append total (e ∷ stack) conditionals =
    ap (λ es. es ++ left_open total e ∷ []) (finish-append total stack conditionals)
    ∙ append_assoc conditionals (finish total stack []) (left_open total e ∷ [])

-- The conditionals that the scan of a text gives are first those that a directive ended, then those
-- that the text leaves open, as many as its directives leave open. One that was ended starts at a line
-- from 1 on, ends at that line or below and inside the text, and its result says whether a line after
-- its start and up to its end is active. One that is left open ends with the text and has the result
-- false, whatever lines are active.
pub scan_conditionals-IsClosed :
    (active : List ℕ) (lines : List (Option Match))
    → (closed unclosed : List Conditional) × (scan_conditionals active lines ≡ closed ++ unclosed)
      × All (IsClosed active (length lines)) closed
      × All (IsLeftOpen active (length lines)) unclosed
      × (length unclosed ≡ left_after 0 lines)
unfolding scan_conditionals
scan_conditionals-IsClosed active lines =
    let total = length lines in
    let empty : Scan = record { stack = []; conditionals = [] } in
    let s = scan_lines active lines 1 empty in
    let v =
      scan_lines-Sound active total lines 1 empty (omega arith) (omega arith)
        (record { stack = tt; conditionals = tt }) in
    (
      s.conditionals,
      finish total s.stack [],
      finish-append total s.stack s.conditionals,
      v.conditionals,
      finish-IsLeftOpen active total s.stack v.stack,
      omega (arith, length-finish total s.stack [], length-scan_lines active lines 1 empty),
    )
