-- ===== src/Ast/Json/Laws.antt =====
-- The JSON walk of src/cpp_mcp/core/ast_walker.py against its plain description.
use cpp_mcp.Base.{
  ℕ, suc, ◌+◌, ◌≤◌, Option, none, some, true, false, leb, if◌then◌else◌, List, [], ◌∷◌, ◌++◌, ◌≡◌,
  refl, ap, arith, Bool-cases, inl, inr, max, ◌∙◌,
}
use mathlib.Core.Path.{ap₂}
use cpp_mcp.Ast.Cursor.{Access, Cursor, cursor, Cursors, Node, Range, overlaps_range}
use cpp_mcp.Ast.Budget.{IsMetered, exhausted}
use cpp_mcp.Ast.Json
use cpp_mcp.Ast.Json.{
  JsonNode, json, JsonNodes, nil, cons, Walk, visit, append_some, walk_cursor, walk_children, start,
  walk_json,
}
use cpp_mcp.Ast.Json.Linear.{
  visible, visible_children, emit, emit-exhausted, emit-append, visit-IsMetered, visit_charged,
  emit-IsMetered,
}

-- The nodes of a tree in preorder.
unfoldable mutual
  pub flatten : JsonNode → List Node
  flatten (json node mark children) = node ∷ flatten_children children

  pub flatten_children : JsonNodes → List Node
  flatten_children nil = []
  flatten_children (cons n ns) = flatten n ++ flatten_children ns

abbrev pub flatten_root : Option JsonNode → List Node
flatten_root none = []
flatten_root (some n) = flatten n

flatten-append_some :
    (first : Option JsonNode) (rest : JsonNodes)
    → flatten_children (append_some first rest) ≡ flatten_root first ++ flatten_children rest
unfolding flatten
flatten-append_some none rest = refl
flatten-append_some (some n) rest = refl

module _ (m : ℕ) (r : Range) where
  walk_cursor_open :
      (a : Access) (children : Cursors) (d : ℕ) (w : Walk)
      → exhausted w.budget ≡ false
      → overlaps_range a r ≡ true
      → (visit a w).2 ≡ true
      → walk_cursor (cursor a children) d m r w ≡ (
          let below = walk_children children (d + 1) m r (visit a w).1 in
          if leb m d
          then (some (json (visit a w).0 (Json.children_exist children) nil), (visit a w).1)
          else (some (json (visit a w).0 false below.0), below.1))
  unfolding walk_cursor
  walk_cursor_open a children d w h o c = rw (h, o, c)

  mutual
    unfolding walk_cursor visible flatten emit

    pub walk_cursor-emit :
        (c : Cursor) (d : ℕ) (w : Walk)
        → IsMetered w.budget
        → (flatten_root (walk_cursor c d m r w).0 ≡ (emit (visible c d (some m) r) w).0)
          × ((walk_cursor c d m r w).1 ≡ (emit (visible c d (some m) r) w).1)
    walk_cursor-emit (cursor a children) d w metered = elim (Bool-cases (exhausted w.budget)) [
      | inl h ↦ rw (h, emit-exhausted _ w h) (refl, refl)
      | inr h ↦ elim (Bool-cases (overlaps_range a r)) [
        | inr out ↦ rw (h, out) (refl, refl)
        | inl within ↦
            let charged = visit_charged a w metered h in
            let below =
              walk_children-emit children (d + 1) (visit a w).1 (visit-IsMetered a w metered) in
            elim (Bool-cases (leb m d)) [
              | inl deep ↦ rw (h, within, charged, deep, h) (refl, refl)
              | inr shallow ↦
                  rw (h, within, charged, shallow, h) (ap (λ l. (visit a w).0 ∷ l) below.0, below.1)
            ]
      ]
    ]

    walk_children-emit :
        (cs : Cursors) (d : ℕ) (w : Walk)
        → IsMetered w.budget
        → (flatten_children (walk_children cs d m r w).0
            ≡ (emit (visible_children cs d (some m) r) w).0)
          × ((walk_children cs d m r w).1 ≡ (emit (visible_children cs d (some m) r) w).1)
    walk_children-emit Cursors.nil d w metered = (refl, refl)
    walk_children-emit (Cursors.cons c cs) d w metered = elim (Bool-cases (exhausted w.budget)) [
      | inl h ↦
          rw (h, emit-exhausted (visible c d (some m) r ++ visible_children cs d (some m) r) w h)
            (refl, refl)
      | inr h ↦
          let first = walk_cursor-emit c d w metered in
          let after = (emit (visible c d (some m) r) w).1 in
          let rest =
            walk_children-emit cs d after (emit-IsMetered (visible c d (some m) r) w metered) in
          rw (h, emit-append (visible c d (some m) r) (visible_children cs d (some m) r) w, first.1)
            (flatten-append_some _ _ ∙ ap₂ (λ xs ys. xs ++ ys) first.0 rest.0, rest.1)
    ]

-- The depth of a tree: a node without children has 1.
unfoldable mutual
  pub height : JsonNode → ℕ
  height (json node mark children) = suc (height_children children)

  pub height_children : JsonNodes → ℕ
  height_children nil = 0
  height_children (cons n ns) = max (height n) (height_children ns)

abbrev pub height_root : Option JsonNode → ℕ
height_root none = 0
height_root (some n) = height n

height-append_some :
    (first : Option JsonNode) (rest : JsonNodes)
    → height_children (append_some first rest) ≡ max (height_root first) (height_children rest)
unfolding height
height-append_some none rest = omega arith
height-append_some (some n) rest = refl

module _ (m : ℕ) (r : Range) where
  mutual
    unfolding walk_cursor height

    pub walk_cursor_depth :
        (c : Cursor) (d : ℕ) (w : Walk) → d ≤ m → height_root (walk_cursor c d m r w).0 + d ≤ suc m
    walk_cursor_depth (cursor a children) d w h =
        ground (arith, λ (k : d + 1 ≤ m). walk_children_depth children (d + 1) (visit a w).1 k)

    walk_children_depth :
        (cs : Cursors) (d : ℕ) (w : Walk)
        → d ≤ m
        → height_children (walk_children cs d m r w).0 + d ≤ suc m
    walk_children_depth Cursors.nil d w h = omega arith
    walk_children_depth (Cursors.cons c cs) d w h = ground (
      arith,
      walk_cursor_depth c d w h,
      walk_children_depth cs d (walk_cursor c d m r w).1 h,
      height-append_some (walk_cursor c d m r w).0
          (walk_children cs d m r (walk_cursor c d m r w).1).0,
    )
