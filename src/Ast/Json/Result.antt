-- ===== src/Ast/Json/Result.antt =====
-- What `walk_json` of src/cpp_mcp/core/ast_walker.py returns.
use cpp_mcp.Base.{
  ℕ, suc, ◌≤◌, none, some, false, leb, if◌then◌else◌, List, ◌≡◌, ap, arith, length, take, max, ◌∙◌,
  sym,
}
use cpp_mcp.Ast.Cursor.{Access, Cursor, Range}
use cpp_mcp.Ast.Budget.{max_nodes, max_bytes, init-IsMetered}
use cpp_mcp.Ast.Json.{JsonResult, walk_json, start}
use cpp_mcp.Ast.Json.Linear.{visible, emit, emit-IsMetered}
use cpp_mcp.Ast.Json.Counts.{number, emit-eq-number, emit_emitted, emit_limits, emit_all, take_all}
use cpp_mcp.Ast.Json.Laws.{flatten_root, walk_cursor-emit, height_root, walk_cursor_depth}

module _ (root : Cursor) (depth : ℕ) (range : Range) (nodes bytes : ℕ) where
  abbrev pub cursors : List Access
  cursors = visible root 0 (some depth) range

  abbrev pub result : JsonResult
  result = walk_json root depth range nodes bytes

  pub result_emit :
      (flatten_root result.root ≡ (emit cursors (start nodes bytes)).0)
      × (result.nodes_emitted ≡ (emit cursors (start nodes bytes)).1.budget.nodes_emitted)
      × (result.truncated ≡ (emit cursors (start nodes bytes)).1.budget.truncated)
      × (result.truncation_reason ≡ (emit cursors (start nodes bytes)).1.budget.truncation_reason)
  unfolding walk_json
  result_emit =
      let walked =
        walk_cursor-emit depth range root 0 (start nodes bytes) (init-IsMetered nodes bytes) in
      (
        walked.0,
        ap (λ w. w.budget.nodes_emitted) walked.1,
        ap (λ w. w.budget.truncated) walked.1,
        ap (λ w. w.budget.truncation_reason) walked.1,
      )

  -- The tree holds, in preorder and numbered from 1, the first `nodes_emitted` of the cursors that
  -- lie within the depth and the line range; there are at most `nodes` of them, or one if `nodes`
  -- is 0; and the reason says which limit ended the walk, if one did.
  pub walk_json_nodes :
      (flatten_root result.root ≡ number 0 (take result.nodes_emitted cursors))
      × (length (flatten_root result.root) ≡ result.nodes_emitted)
      × (result.nodes_emitted ≤ max 1 nodes)
      × (result.truncation_reason ≡ (
          if result.truncated
          then some (if leb nodes result.nodes_emitted then max_nodes else max_bytes)
          else none))
  walk_json_nodes =
      let metered = emit-IsMetered cursors (start nodes bytes) (init-IsMetered nodes bytes) in
      let after = emit cursors (start nodes bytes) in
      let count : after.1.budget.nodes_emitted ≡ length after.0 =
        omega (arith, emit_emitted cursors (start nodes bytes) (init-IsMetered nodes bytes)) in
      let limits = emit_limits cursors (start nodes bytes) in
      let e = result_emit in
      rw (e.0, e.1, e.2, e.3)
        (
          emit-eq-number cursors (start nodes bytes)
              ∙ ap (λ n. number 0 (take n cursors)) (sym count),
          sym count,
          omega (arith, metered.within, limits.0),
          ground (arith, metered.reason, limits.0),
        )

  -- A walk that does not report a truncation has left out no cursor within the depth and the range.
  pub walk_json_complete : result.truncated ≡ false → flatten_root result.root ≡ number 0 cursors
  walk_json_complete whole =
      let e = result_emit in
      let count = emit_all cursors (start nodes bytes) (sym e.2 ∙ whole) in
      e.0 ∙ emit-eq-number cursors (start nodes bytes) ∙ ap (number 0) (take_all cursors _ count)

  -- No node lies deeper than `depth` below the root.
  pub walk_json_depth : height_root result.root ≤ suc depth
  unfolding walk_json
  walk_json_depth =
      omega (arith, walk_cursor_depth depth range root 0 (start nodes bytes) (omega arith))
