-- ===== src/Ast/Graph/Nodes.antt =====
-- The nodes of the graph walk of src/cpp_mcp/core/ast_walker.py against the plain description that the JSON
-- walk obeys too.
use mathlib.Core.List.{append-nil, append_assoc}
use cpp_mcp.Base.{ℕ, ◌+◌, Option, none, some, ◌++◌, ◌≡◌, refl, Bool-cases, inl, inr, ◌∙◌, sym}
use cpp_mcp.Ast.Cursor.{Cursor, cursor, Cursors, nil, cons, Range, overlaps_range}
use cpp_mcp.Ast.Budget.{IsMetered, exhausted}
use cpp_mcp.Ast.Json.{visit}
use cpp_mcp.Ast.Json.Linear.{
  visible, visible_children, emit, emit-nil, emit-exhausted, emit_open, emit-append,
  visit-IsMetered, visit_charged, emit-IsMetered,
}
use cpp_mcp.Ast.Graph.{GraphWalk, enter, walk_cursor, walk_children}

module _ (r : Range) where
  mutual
    unfolding walk_cursor visible enter

    pub walk_cursor-emit :
        (c : Cursor) (p : Option ℕ) (d : ℕ) (g : GraphWalk)
        → IsMetered g.walk.budget
        → ((walk_cursor c p r g).1.nodes ≡ g.nodes ++ (emit (visible c d none r) g.walk).0)
          × ((walk_cursor c p r g).1.walk ≡ (emit (visible c d none r) g.walk).1)
    walk_cursor-emit (cursor a children) p d g m = elim (Bool-cases (exhausted g.walk.budget)) [
      | inl h ↦
          rw (h, emit-exhausted (visible (cursor a children) d none r) g.walk h)
            (sym (append-nil g.nodes), refl)
      | inr h ↦ elim (Bool-cases (overlaps_range a r)) [
        | inr out ↦ rw (h, out, emit-nil) (sym (append-nil g.nodes), refl)
        | inl within ↦
            let charged = visit_charged a g.walk m h in
            let w' = (visit a g.walk).1 in
            let inner = visible_children children (d + 1) none r in
            elim (Bool-cases (exhausted w'.budget)) [
              | inl full ↦
                  rw
                    (
                      h,
                      within,
                      charged,
                      full,
                      emit_open a inner g.walk h,
                      emit-exhausted inner w' full,
                    )
                    (refl, refl)
              | inr more ↦
                  let below =
                    walk_children-emit children (g.walk.node_counter + 1) (d + 1) (enter p a g)
                      (visit-IsMetered a g.walk m) in
                  rw (h, within, charged, more, emit_open a inner g.walk h)
                    (below.0 ∙ append_assoc g.nodes _ _, below.1)
            ]
      ]
    ]

    pub walk_children-emit :
        (cs : Cursors) (p : ℕ) (d : ℕ) (g : GraphWalk)
        → IsMetered g.walk.budget
        → ((walk_children cs p r g).nodes
            ≡ g.nodes ++ (emit (visible_children cs d none r) g.walk).0)
          × ((walk_children cs p r g).walk ≡ (emit (visible_children cs d none r) g.walk).1)
    walk_children-emit nil p d g m = rw emit-nil (sym (append-nil g.nodes), refl)
    walk_children-emit (cons c cs) p d g m = elim (Bool-cases (exhausted g.walk.budget)) [
      | inl h ↦
          rw (h, emit-exhausted (visible c d none r ++ visible_children cs d none r) g.walk h)
            (sym (append-nil g.nodes), refl)
      | inr h ↦
          let first = walk_cursor-emit c (some p) d g m in
          let xs = visible c d none r in
          let g' = (walk_cursor c (some p) r g).1 in
          let metered : IsMetered g'.walk.budget = rw (first.1) (emit-IsMetered xs g.walk m) in
          let rest = walk_children-emit cs p d g' metered in
          let ys = visible_children cs d none r in
          rw (h, emit-append xs ys g.walk)
            (rest.0 ∙ rw (first.0, first.1) (append_assoc g.nodes _ _), rest.1 ∙ rw (first.1))
    ]
