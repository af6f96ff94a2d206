-- ===== src/Ast/Graph/Edges.antt =====
-- The edges of the graph walk of src/cpp_mcp/core/ast_walker.py: with the nodes they form a tree.
use mathlib.Core.List.{map-append}
use native.Mathlib.Numerals.{add-one}
use cpp_mcp.Base.{
  ℕ, zero, suc, ◌+◌, ◌≤◌, ◌<◌, Option, none, some, false, List, [], ◌∷◌, ◌++◌, ◌≡◌, refl, ap, arith,
  map, All, All-append, Bool-cases, inl, inr, ◌∙◌, sym, ◌⊎◌,
}
use cpp_mcp.Ast.Cursor.{Access, Cursor, cursor, Cursors, nil, cons, Node, Range, overlaps_range}
use cpp_mcp.Ast.Budget.{IsMetered, exhausted, init-IsMetered}
use cpp_mcp.Ast.Json.{Walk, visit}
use cpp_mcp.Ast.Json.Linear.{visible, emit-IsMetered, visit-IsMetered, visit_charged}
use cpp_mcp.Ast.Json.Counts.{emit_counter}
use cpp_mcp.Ast.Graph.Nodes.{walk_cursor-emit}
use cpp_mcp.Ast.Graph.{Edge, GraphWalk, add_edge, enter, walk_cursor, walk_children, start_graph}

-- The numbers from 1 to n.
unfoldable pub ids : ℕ → List ℕ
ids zero = []
ids (suc n) = ids n ++ suc n ∷ []

ids-add-one : (n : ℕ) → ids (n + 1) ≡ ids n ++ (n + 1) ∷ []
unfolding ids
ids-add-one n = rw add-one

abbrev pub node_ids : List Node → List ℕ
node_ids = map (λ n. n.id)

abbrev pub targets : List Edge → List ℕ
targets = map (λ e. e.target_id)

-- An edge leads from a node to one with a larger number.
abbrev pub Forward : Edge → Type 0
Forward e = (1 ≤ e.source_id) × (e.source_id < e.target_id)

-- The nodes have the numbers from 1 up to the count, and each but the first is the target of
-- exactly one edge, which comes from an earlier node.
pub record IsTree (count : ℕ) (nodes : List Node) (edges : List Edge) : Type 0 where
  pub numbered : node_ids nodes ≡ ids count
  pub reached : 1 ∷ targets edges ≡ ids count
  pub forward : All Forward edges

visit_id : (a : Access) (w : Walk) → (visit a w).0.id ≡ w.node_counter + 1
unfolding visit cpp_mcp.Ast.Cursor.cursor_to_node
visit_id a w = refl

enter-IsTree :
    (p : ℕ) (a : Access) (g : GraphWalk)
    → 1 ≤ p
    → p ≤ g.walk.node_counter
    → IsTree g.walk.node_counter g.nodes g.edges
    → IsTree (g.walk.node_counter + 1) (enter (some p) a g).nodes (enter (some p) a g).edges
unfolding enter add_edge
enter-IsTree p a g lo hi t =
    let n = g.walk.node_counter + 1 in
    record {
      numbered =
          map-append (λ (x : Node). x.id) g.nodes ((visit a g.walk).0 ∷ [])
          ∙ rw (t.numbered, visit_id a g.walk, ids-add-one) refl;
      reached =
          ap (λ l. 1 ∷ l) (map-append (λ (e : Edge). e.target_id) g.edges _)
          ∙ ap (λ l. l ++ n ∷ []) t.reached
          ∙ sym (ids-add-one g.walk.node_counter);
      forward = All-append Forward g.edges _ t.forward ((lo, omega arith), tt);
    }

enter_counter :
    (p : Option ℕ) (a : Access) (g : GraphWalk)
    → (enter p a g).walk.node_counter ≡ g.walk.node_counter + 1
unfolding enter visit
enter_counter p a g = refl

enter_walk : (p : Option ℕ) (a : Access) (g : GraphWalk) → (enter p a g).walk ≡ (visit a g.walk).1
unfolding enter
enter_walk p a g = refl

exhausted_start : (nodes bytes : ℕ) → exhausted (start_graph nodes bytes).walk.budget ≡ false
unfolding exhausted
exhausted_start nodes bytes = refl

abbrev pub Grown : GraphWalk → Type 0
Grown g = IsTree g.walk.node_counter g.nodes g.edges

module _ (r : Range) where
  walk_cursor-IsMetered :
      (c : Cursor) (p : Option ℕ) (g : GraphWalk)
      → IsMetered g.walk.budget
      → IsMetered (walk_cursor c p r g).1.walk.budget
        × (g.walk.node_counter ≤ (walk_cursor c p r g).1.walk.node_counter)
  walk_cursor-IsMetered c p g m =
      let e = (walk_cursor-emit r c p 0 g m).1 in
      let xs = visible c 0 none r in
      rw e (emit-IsMetered xs g.walk m, omega (arith, emit_counter xs g.walk))

  mutual
    unfolding walk_cursor

    walk_cursor-Grown :
        (c : Cursor) (p : ℕ) (g : GraphWalk)
        → IsMetered g.walk.budget
        → 1 ≤ p
        → p ≤ g.walk.node_counter
        → Grown g
        → Grown (walk_cursor c (some p) r g).1
    walk_cursor-Grown (cursor a children) p g m lo hi t =
        elim (Bool-cases (exhausted g.walk.budget)) [
          | inl h ↦ rw h t
          | inr h ↦ elim (Bool-cases (overlaps_range a r)) [
            | inr out ↦ rw (h, out) t
            | inl within ↦
                let charged = visit_charged a g.walk m h in
                let g' = enter (some p) a g in
                let t' : Grown g' = rw (enter_counter (some p) a g) (enter-IsTree p a g lo hi t) in
                let m' : IsMetered g'.walk.budget =
                  rw (enter_walk (some p) a g) (visit-IsMetered a g.walk m) in
                elim (Bool-cases (exhausted g'.walk.budget)) [
                  | inl full ↦ rw (h, within, charged, full) t'
                  | inr more ↦
                      rw (h, within, charged, more)
                        (walk_children-Grown children (g.walk.node_counter + 1) g' m' (omega arith)
                          (omega (arith, enter_counter (some p) a g)) t')
                ]
          ]
        ]

    walk_children-Grown :
        (cs : Cursors) (p : ℕ) (g : GraphWalk)
        → IsMetered g.walk.budget
        → 1 ≤ p
        → p ≤ g.walk.node_counter
        → Grown g
        → Grown (walk_children cs p r g)
    walk_children-Grown nil p g m lo hi t = t
    walk_children-Grown (cons c cs) p g m lo hi t = elim (Bool-cases (exhausted g.walk.budget)) [
      | inl h ↦ rw h t
      | inr h ↦
          let (m', le) = walk_cursor-IsMetered c (some p) g m in
          let first = walk_cursor-Grown c p g m lo hi t in
          rw h (
            walk_children-Grown cs p (walk_cursor c (some p) r g).1 m' lo (omega (arith, le, hi))
              first)
    ]

  entered-IsTree : (a : Access) (nodes bytes : ℕ) → Grown (enter none a (start_graph nodes bytes))
  unfolding enter add_edge ids visit cpp_mcp.Ast.Cursor.cursor_to_node
  entered-IsTree a nodes bytes = record { numbered = refl; reached = refl; forward = tt }

  -- The root is a node without an edge, if the line range lets it in.
  pub root-Grown :
      (c : Cursor) (nodes bytes : ℕ)
      → ((walk_cursor c none r (start_graph nodes bytes)).1 ≡ start_graph nodes bytes)
        ⊎ Grown (walk_cursor c none r (start_graph nodes bytes)).1
  unfolding walk_cursor
  root-Grown (cursor a children) nodes bytes = elim (Bool-cases (overlaps_range a r)) [
    | inr out ↦ inl (rw (out, exhausted_start nodes bytes) refl)
    | inl within ↦
        let g = start_graph nodes bytes in
        let h = exhausted_start nodes bytes in
        let m = init-IsMetered nodes bytes in
        let charged = visit_charged a g.walk m h in
        let g' = enter none a g in
        let t' = entered-IsTree a nodes bytes in
        let m' : IsMetered g'.walk.budget = rw (enter_walk none a g) (visit-IsMetered a g.walk m) in
        inr (elim (Bool-cases (exhausted g'.walk.budget)) [
          | inl full ↦ rw (h, within, charged, full) t'
          | inr more ↦
              rw (h, within, charged, more)
                (walk_children-Grown children 1 g' m' (omega arith)
                  (omega (arith, enter_counter none a g)) t')
        ])
  ]
