-- ===== src/Ast/Json/Linear.antt =====
-- A plain description of the walks of src/cpp_mcp/core/ast_walker.py: the cursors that a walk would visit
-- with no budget, in order, and the nodes that a budget lets through.
use cpp_mcp.Base.{
  ℕ, ◌+◌, Option, none, some, Bool, true, false, leb, if◌then◌else◌, List, [], ◌∷◌, ◌++◌, ◌≡◌, refl,
  Bool-cases, inl, inr,
}
use cpp_mcp.Ast.Cursor.{Access, Cursor, cursor, Cursors, Node, Range, overlaps_range}
use cpp_mcp.Ast.Budget.{IsMetered, exhausted, charge-IsMetered, charged_if_open}
use cpp_mcp.Ast.Json.{Walk, visit}

-- A depth limit, if there is one, that cuts the children of a cursor.
abbrev pub cut : Option ℕ → ℕ → Bool
cut none depth = false
cut (some max_depth) depth = leb max_depth depth

-- The cursors within the depth limit, in preorder; one outside the range hides those below it.
unfoldable mutual
  pub visible : Cursor → ℕ → Option ℕ → Range → List Access
  visible (cursor a children) depth limit range =
      let below = visible_children children (depth + 1) limit range in
      if overlaps_range a range then a ∷ (if cut limit depth then [] else below) else []

  pub visible_children : Cursors → ℕ → Option ℕ → Range → List Access
  visible_children Cursors.nil depth limit range = []
  visible_children (Cursors.cons c cs) depth limit range =
      visible c depth limit range ++ visible_children cs depth limit range

-- The nodes of a list of cursors, until the budget is exhausted, and the walk after them.
unfoldable pub emit : List Access → Walk → List Node × Walk
emit [] w = ([], w)
emit (a ∷ rest) w =
    let after = emit rest (visit a w).1 in
    if exhausted w.budget then ([], w) else ((visit a w).0 ∷ after.0, after.1)

pub emit-nil : (w : Walk) → emit [] w ≡ ([], w)
unfolding emit
emit-nil w = refl

pub emit-exhausted : (xs : List Access) (w : Walk) → exhausted w.budget ≡ true → emit xs w ≡ ([], w)
unfolding emit
emit-exhausted [] w h = refl
emit-exhausted (a ∷ xs) w h = rw h

pub emit_open :
    (a : Access) (xs : List Access) (w : Walk)
    → exhausted w.budget ≡ false
    → emit (a ∷ xs) w ≡ ((visit a w).0 ∷ (emit xs (visit a w).1).0, (emit xs (visit a w).1).1)
unfolding emit
emit_open a xs w h = rw h

pub emit-append :
    (xs ys : List Access) (w : Walk)
    → emit (xs ++ ys) w ≡ ((emit xs w).0 ++ (emit ys (emit xs w).1).0, (emit ys (emit xs w).1).1)
emit-append [] ys w = unfold emit in refl
emit-append (a ∷ xs) ys w = elim (Bool-cases (exhausted w.budget)) [
  | inl h ↦
      rw (emit-exhausted (a ∷ (xs ++ ys)) w h, emit-exhausted (a ∷ xs) w h, emit-exhausted ys w h)
  | inr h ↦ rw (emit_open a (xs ++ ys) w h, emit_open a xs w h, emit-append xs ys (visit a w).1)
]

pub visit-IsMetered : (a : Access) (w : Walk) → IsMetered w.budget → IsMetered (visit a w).1.budget
unfolding visit
visit-IsMetered a w m = charge-IsMetered _ w.budget m

pub visit_charged :
    (a : Access) (w : Walk) → IsMetered w.budget → exhausted w.budget ≡ false → (visit a w).2 ≡ true
unfolding visit
visit_charged a w m h = charged_if_open _ w.budget m h

pub emit-IsMetered :
    (xs : List Access) (w : Walk) → IsMetered w.budget → IsMetered (emit xs w).1.budget
unfolding emit
emit-IsMetered [] w m = m
emit-IsMetered (a ∷ xs) w m = elim (Bool-cases (exhausted w.budget)) [
  | inl h ↦ rw h m
  | inr h ↦ rw h (emit-IsMetered xs (visit a w).1 (visit-IsMetered a w m))
]
