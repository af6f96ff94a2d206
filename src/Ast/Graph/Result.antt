-- ===== src/Ast/Graph/Result.antt =====
-- What `walk_graph` of src/cpp_mcp/core/ast_walker.py returns, and how it agrees with `walk_json`.
use mathlib.Core.Path.{ap₂}
use cpp_mcp.Base.{
  ℕ, suc, ◌+◌, ◌≤◌, Option, none, some, true, false, leb, List, [], ◌++◌, ◌≡◌, refl, ap, arith,
  length, take, drop, max, All, ◌∙◌, sym, inl, inr, Bool-cases, ◌⊎◌, subst,
}
use cpp_mcp.Ast.Cursor.{Access, Cursor, cursor, Cursors, nil, cons, Range}
use cpp_mcp.Ast.Budget.{init-IsMetered}
use cpp_mcp.Ast.Json.{walk_json, start}
use cpp_mcp.Ast.Json.Linear.{visible, visible_children, emit, emit-IsMetered}
use cpp_mcp.Ast.Json.Counts.{
  number, emit-eq-number, emit_emitted, emit_counter, emit_limits, emit_all, take_all,
}
use cpp_mcp.Ast.Json.Laws.{flatten_root}
use cpp_mcp.Ast.Json.Result as JsonWalk
use cpp_mcp.Ast.Graph.{GraphWalk, GraphResult, walk_cursor, walk_graph, start_graph}
use cpp_mcp.Ast.Graph.Nodes.{walk_cursor-emit}
use cpp_mcp.Ast.Graph.Edges.{ids, node_ids, targets, Forward, root-Grown}

abbrev IsTreeOf : GraphWalk → Type 0
IsTreeOf g =
    (node_ids g.nodes ≡ ids g.walk.budget.nodes_emitted)
    × (targets g.edges ≡ drop 1 (ids g.walk.budget.nodes_emitted))
    × All Forward g.edges

module _ (root : Cursor) (range : Range) (nodes bytes : ℕ) where
  abbrev cursors : List Access
  cursors = visible root 0 none range

  abbrev result : GraphResult
  result = walk_graph root range nodes bytes

  result_emit :
      (result.nodes ≡ (emit cursors (start nodes bytes)).0)
      × (result.nodes_emitted ≡ (emit cursors (start nodes bytes)).1.budget.nodes_emitted)
      × (result.truncated ≡ (emit cursors (start nodes bytes)).1.budget.truncated)
      × (result.truncation_reason ≡ (emit cursors (start nodes bytes)).1.budget.truncation_reason)
  unfolding walk_graph
  result_emit =
      let walked =
        walk_cursor-emit range root none 0 (start_graph nodes bytes) (init-IsMetered nodes bytes) in
      (
        walked.0,
        ap (λ w. w.budget.nodes_emitted) walked.1,
        ap (λ w. w.budget.truncated) walked.1,
        ap (λ w. w.budget.truncation_reason) walked.1,
      )

  -- The node list holds the first `nodes_emitted` of the cursors within the line range, in
  -- preorder; there are at most `nodes` of them, or one if `nodes` is 0; and if the walk reports
  -- no truncation, none is left out.
  pub walk_graph_nodes :
      (result.nodes ≡ number 0 (take result.nodes_emitted cursors))
      × (length result.nodes ≡ result.nodes_emitted)
      × (result.nodes_emitted ≤ max 1 nodes)
      × ((result.truncated ≡ true) ⊎ (result.nodes ≡ number 0 cursors))
  walk_graph_nodes =
      let after = emit cursors (start nodes bytes) in
      let metered = emit-IsMetered cursors (start nodes bytes) (init-IsMetered nodes bytes) in
      let count : after.1.budget.nodes_emitted ≡ length after.0 =
        omega (arith, emit_emitted cursors (start nodes bytes) (init-IsMetered nodes bytes)) in
      let limits = emit_limits cursors (start nodes bytes) in
      let firsts = emit-eq-number cursors (start nodes bytes) in
      let e = result_emit in
      rw (e.0, e.1, e.2)
        (
          firsts ∙ ap (λ n. number 0 (take n cursors)) (sym count),
          sym count,
          omega (arith, metered.within, limits.0),
          elim (Bool-cases after.1.budget.truncated) [
            | inl cut_off ↦ inl cut_off
            | inr whole ↦ inr (
                firsts
                ∙ ap (number 0) (take_all cursors _ (emit_all cursors (start nodes bytes) whole)))
          ],
        )

  -- The nodes are numbered from 1 without a gap; every node but the first is the target of exactly
  -- one edge, in order, and every edge comes from an emitted node with a smaller number. So no
  -- edge dangles, also when the walk is truncated.
  pub walk_graph_tree :
      (node_ids result.nodes ≡ ids result.nodes_emitted)
      × (targets result.edges ≡ drop 1 (ids result.nodes_emitted))
      × All Forward result.edges
  unfolding walk_graph
  walk_graph_tree = elim (root-Grown range root nodes bytes) [
    | inl empty ↦ subst IsTreeOf (sym empty) (unfold ids in (refl, refl, tt))
    | inr grown ↦
        let walked =
          walk_cursor-emit range root none 0 (start_graph nodes bytes)
            (init-IsMetered nodes bytes) in
        let g = (walk_cursor root none range (start_graph nodes bytes)).1 in
        let metered = init-IsMetered nodes bytes in
        let counted : g.walk.node_counter ≡ g.walk.budget.nodes_emitted = rw (walked.1) (
          omega (
            arith,
            emit_counter cursors (start nodes bytes),
            emit_emitted cursors (start nodes bytes) metered,
          )) in
        (
          grown.numbered ∙ ap ids counted,
          ap (drop 1) grown.reached ∙ ap (λ n. drop 1 (ids n)) counted,
          grown.forward,
        )
  ]

-- The depth of a tree of cursors: a cursor without children has 0.
unfoldable mutual
  pub height : Cursor → ℕ
  height (cursor a children) = height_children children

  pub height_children : Cursors → ℕ
  height_children nil = 0
  height_children (cons c cs) = max (suc (height c)) (height_children cs)

module _ (m : ℕ) (r : Range) where
  visible_nil : (l : Option ℕ) (d : ℕ) → visible_children nil d l r ≡ []
  unfolding visible
  visible_nil l d = refl

  mutual
    unfolding visible height

    visible_uncut :
        (c : Cursor) (d : ℕ) → height c + d ≤ m → visible c d (some m) r ≡ visible c d none r
    visible_uncut (cursor a nil) d h = ground arith
    visible_uncut (cursor a (cons c cs)) d h =
        let low : leb m d ≡ false = ground arith in
        rw (low, visible_children_uncut (cons c cs) d (omega arith)) refl

    visible_children_uncut :
        (cs : Cursors) (d : ℕ)
        → height_children cs + d ≤ m
        → visible_children cs (d + 1) (some m) r ≡ visible_children cs (d + 1) none r
    visible_children_uncut nil d h = refl
    visible_children_uncut (cons c cs) d h =
        ap₂ (λ xs ys. xs ++ ys) (visible_uncut c (d + 1) (omega arith))
          (visible_children_uncut cs d (omega arith))

-- With a depth that no cursor exceeds, the two formats have the same nodes in the same order, and
-- report the same truncation, whatever the line range and the budget.
pub formats_agree :
    (root : Cursor) (depth : ℕ) (range : Range) (nodes bytes : ℕ)
    → height root ≤ depth
    → (flatten_root (walk_json root depth range nodes bytes).root
        ≡ (walk_graph root range nodes bytes).nodes)
      × ((walk_json root depth range nodes bytes).truncated
          ≡ (walk_graph root range nodes bytes).truncated)
      × ((walk_json root depth range nodes bytes).truncation_reason
          ≡ (walk_graph root range nodes bytes).truncation_reason)
      × ((walk_json root depth range nodes bytes).nodes_emitted
          ≡ (walk_graph root range nodes bytes).nodes_emitted)
formats_agree root depth range nodes bytes h =
    let same : visible root 0 (some depth) range ≡ visible root 0 none range =
      visible_uncut depth range root 0 (omega arith) in
    let j = JsonWalk.result_emit root depth range nodes bytes in
    let g = result_emit root range nodes bytes in
    let run = λ (xs : List Access). emit xs (start nodes bytes) in
    (
      j.0 ∙ ap (λ xs. (run xs).0) same ∙ sym g.0,
      j.2 ∙ ap (λ xs. (run xs).1.budget.truncated) same ∙ sym g.2,
      j.3 ∙ ap (λ xs. (run xs).1.budget.truncation_reason) same ∙ sym g.3,
      j.1 ∙ ap (λ xs. (run xs).1.budget.nodes_emitted) same ∙ sym g.1,
    )
