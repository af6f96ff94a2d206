-- ===== src/Ast/Json/Counts.antt =====
-- What a budget lets through: a prefix of the cursors, numbered from 1
-- (src/cpp_mcp/core/ast_walker.py).
use cpp_mcp.Base.{
  ℕ, zero, suc, ◌+◌, true, false, List, [], ◌∷◌, ◌≡◌, refl, ap, arith, length, take, Bool-cases,
  inl, inr, ◌∙◌,
}
use cpp_mcp.Ast.Cursor.{Access, Node, cursor_to_node}
use cpp_mcp.Ast.Budget.{Budget, IsMetered, charge, exhausted}
use cpp_mcp.Ast.Json.{Walk, visit}
use cpp_mcp.Ast.Json.Linear.{emit, emit-exhausted, emit_open, visit-IsMetered}

-- The nodes of cursors numbered after `k`.
unfoldable pub number : ℕ → List Access → List Node
number k [] = []
number k (a ∷ rest) = cursor_to_node a (k + 1) ∷ number (k + 1) rest

pub length-number : (k : ℕ) (xs : List Access) → length (number k xs) ≡ length xs
unfolding number
length-number k [] = refl
length-number k (a ∷ rest) = ap suc (length-number (k + 1) rest)

visit_node : (a : Access) (w : Walk) → (visit a w).0 ≡ cursor_to_node a (w.node_counter + 1)
unfolding visit
visit_node a w = refl

visit_counter : (a : Access) (w : Walk) → (visit a w).1.node_counter ≡ w.node_counter + 1
unfolding visit
visit_counter a w = refl

visit_limits :
    (a : Access) (w : Walk)
    → ((visit a w).1.budget.node_limit ≡ w.budget.node_limit)
      × ((visit a w).1.budget.byte_limit ≡ w.budget.byte_limit)
unfolding visit charge
visit_limits a w = ground arith

visit_emitted :
    (a : Access) (w : Walk)
    → IsMetered w.budget
    → exhausted w.budget ≡ false
    → (visit a w).1.budget.nodes_emitted ≡ w.budget.nodes_emitted + 1
unfolding visit charge exhausted
visit_emitted a w m h = ground (arith, m.flag)

-- The nodes let through are the first ones, in order and numbered without a gap.
pub emit-eq-number :
    (xs : List Access) (w : Walk)
    → (emit xs w).0 ≡ number w.node_counter (take (length (emit xs w).0) xs)
unfolding number
emit-eq-number [] w = unfold emit in refl
emit-eq-number (a ∷ xs) w = elim (Bool-cases (exhausted w.budget)) [
  | inl h ↦ rw (emit-exhausted (a ∷ xs) w h) refl
  | inr h ↦
      rw (emit_open a xs w h)
        (cc (visit_node a w, visit_counter a w, emit-eq-number xs (visit a w).1))
]

pub emit_emitted :
    (xs : List Access) (w : Walk)
    → IsMetered w.budget
    → (emit xs w).1.budget.nodes_emitted ≡ w.budget.nodes_emitted + length (emit xs w).0
emit_emitted [] w m = unfold emit in omega arith
emit_emitted (a ∷ xs) w m = elim (Bool-cases (exhausted w.budget)) [
  | inl h ↦ rw (emit-exhausted (a ∷ xs) w h) (omega arith)
  | inr h ↦
      rw (emit_open a xs w h) (
        omega (arith, visit_emitted a w m h, emit_emitted xs (visit a w).1 (visit-IsMetered a w m)))
]

pub emit_counter :
    (xs : List Access) (w : Walk)
    → (emit xs w).1.node_counter ≡ w.node_counter + length (emit xs w).0
emit_counter [] w = unfold emit in omega arith
emit_counter (a ∷ xs) w = elim (Bool-cases (exhausted w.budget)) [
  | inl h ↦ rw (emit-exhausted (a ∷ xs) w h) (omega arith)
  | inr h ↦
      rw (emit_open a xs w h) (omega (arith, visit_counter a w, emit_counter xs (visit a w).1))
]

pub emit_limits :
    (xs : List Access) (w : Walk)
    → ((emit xs w).1.budget.node_limit ≡ w.budget.node_limit)
      × ((emit xs w).1.budget.byte_limit ≡ w.budget.byte_limit)
emit_limits [] w = unfold emit in (refl, refl)
emit_limits (a ∷ xs) w = elim (Bool-cases (exhausted w.budget)) [
  | inl h ↦ rw (emit-exhausted (a ∷ xs) w h) (refl, refl)
  | inr h ↦
      let after = emit_limits xs (visit a w).1 in
      let before = visit_limits a w in
      rw (emit_open a xs w h) (after.0 ∙ before.0, after.1 ∙ before.1)
]

exhausted-truncated : (b : Budget) → exhausted b ≡ true → b.truncated ≡ true
unfolding exhausted
exhausted-truncated b h = ground arith

-- A walk that does not end truncated has let everything through.
pub emit_all :
    (xs : List Access) (w : Walk)
    → (emit xs w).1.budget.truncated ≡ false
    → length (emit xs w).0 ≡ length xs
emit_all [] w = unfold emit in λ h. refl
emit_all (a ∷ xs) w = elim (Bool-cases (exhausted w.budget)) [
  | inl h ↦ rw (emit-exhausted (a ∷ xs) w h) (λ t. cc (t, exhausted-truncated w.budget h))
  | inr h ↦ rw (emit_open a xs w h) (λ t. ap suc (emit_all xs (visit a w).1 t))
]

pub take_all {ℓ} : {A : Type ℓ} (xs : List A) (n : ℕ) → n ≡ length xs → take n xs ≡ xs
take_all [] zero h = refl
take_all [] (suc n) h = refl
take_all (x ∷ xs) zero h = absurd (omega (arith, h))
take_all (x ∷ xs) (suc n) h = ap (λ l. x ∷ l) (take_all xs n (omega (arith, h)))
