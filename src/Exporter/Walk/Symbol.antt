-- ===== src/Exporter/Walk/Symbol.antt =====
-- All that a symbol adds in the walk of src/cpp_mcp/graphdb/exporter.py, its parameters last, keeps the graph
-- closed.
use cpp_mcp.Base.{
  ℕ, ◌+◌, Text, List, [], ◌∷◌, ◌++◌, Option, none, some, true, false, ◌≟◌, list_eq, nat_eq,
  string_eq, elem, ◌≡◌, inl, inr, refl, arith, Bool-cases, beq_refl,
}
use cpp_mcp.Exporter.Variables.{NodeType}
use cpp_mcp.Exporter.Records.{EdgeRecord, Graph, add_edge, of_type, has_param, index}
use cpp_mcp.Exporter.Types.{maybe_type}
use cpp_mcp.Exporter.Cursor.{
  Details, Cursors, Export, Param, Parent, file_usr, function_cursor_kinds, kind_of,
}
use cpp_mcp.Exporter.Emit.{
  add_symbol, parent_edge, param_usr, param_node, add_param, add_params_from, add_params,
  emit_symbol,
}
use cpp_mcp.Exporter.Walk.Closed.{
  IsClosed, announce-IsClosed, settle-IsClosed, Grows-cons, IsSettled, maybe_type-IsSettled,
}
use cpp_mcp.Exporter.Walk.Steps.{
  Keeps, keep, Keeps_trans, Keeps_join, Placed, Placed-Grows, add_edge-Keeps, add_symbol-Keeps,
  link_type-Keeps, parent_edge-IsLinked, add_inherits-Keeps, add_call_none, add_returns-Keeps,
}

add_param-Keeps :
    (env : Export) (usr : Text) (idx : ℕ) (p : Param) (g : Graph)
    → elem usr g.seen ≡ true
    → IsClosed [] g
    → Keeps g (add_param env usr idx p g)
unfolding add_param
add_param-Keeps env usr idx p g k c =
    let name = param_usr usr idx in
    let announced = record g { seen = name ∷ g.seen } in
    elim (Bool-cases (elem name g.seen)) [
      | inl there ↦ rw there (keep g c)
      | inr new ↦
          let up = Grows-cons name g in
          let here : elem name announced.seen ≡ true = ground (arith, beq_refl name) in
          let s =
            maybe_type-IsSettled env.sha1 (name ∷ []) p.type announced
              (announce-IsClosed name g new c) in
          let typed = maybe_type env.sha1 p.type announced in
          let settled = settle-IsClosed (param_node usr idx p) typed.0 s.closed in
          let g' = record (typed.0) { nodes = typed.0.nodes ++ param_node usr idx p ∷ [] } in
          let edge : EdgeRecord = record {
            source_usr = usr;
            target_usr = name;
            edge_type = has_param;
            props = index idx;
          } in
          let edged =
            add_edge-Keeps edge g' (s.grows usr (up usr k), s.grows name here, refl) settled in
          let s' : IsSettled [] announced (add_edge edge g', typed.1) = record {
            closed = edged.closed;
            grows = λ u h. edged.grows u (s.grows u h);
            found = λ u h. edged.grows u (s.found u h);
          } in
          rw new (Keeps_trans up (link_type-Keeps name of_type announced _ here refl s'))
    ]

add_params_from-Keeps :
    (env : Export) (usr : Text) (idx : ℕ) (params : List (Option Param)) (g : Graph)
    → elem usr g.seen ≡ true
    → IsClosed [] g
    → Keeps g (add_params_from env usr idx params g)
unfolding add_params_from
add_params_from-Keeps env usr idx [] g k c = keep g c
add_params_from-Keeps env usr idx (none ∷ params) g k c = keep g c
add_params_from-Keeps env usr idx (some p ∷ params) g k c =
    let first = add_param-Keeps env usr idx p g k c in
    Keeps_trans first.grows (
      add_params_from-Keeps env usr (idx + 1) params (add_param env usr idx p g) (first.grows usr k)
        first.closed)

add_params-Keeps :
    (env : Export) (d : Details) (usr : Text) (g : Graph)
    → elem usr g.seen ≡ true
    → IsClosed [] g
    → Keeps g (add_params env d usr g)
unfolding add_params
add_params-Keeps env d usr g k c = elim (Bool-cases (elem (kind_of d) function_cursor_kinds)) [
  | inl is_function ↦ rw is_function (add_params_from-Keeps env usr 0 d.arguments g k c)
  | inr other ↦ rw other (keep g c)
]

-- All that a symbol adds, when its kind is not that of a call.
pub emit_symbol-Keeps :
    (env : Export) (d : Details) (children : Cursors) (parent : Parent) (node_type : NodeType)
    (usr : Text) (g : Graph)
    → (kind_of d ≟ "CALL_EXPR") ≡ false
    → elem (file_usr env.file_path) g.seen ≡ true
    → Placed parent g
    → IsClosed [] g
    → Keeps g (emit_symbol env d children parent node_type usr g)
      × (elem usr (emit_symbol env d children parent node_type usr g).seen ≡ true)
unfolding emit_symbol
emit_symbol-Keeps env d children parent node_type usr g other f p c =
    let added = add_symbol-Keeps env d children node_type usr g c in
    let g1 = add_symbol env d children node_type usr g in
    let linked =
      add_edge-Keeps (parent_edge env d parent usr) g1
        (parent_edge-IsLinked env d parent usr g1 (added.0.grows (file_usr env.file_path) f)
          (Placed-Grows parent g g1 added.0.grows p) added.1)
        added.0.closed in
    let derived = add_inherits-Keeps d children usr _ (linked.grows usr added.1) linked.closed in
    let so_far = Keeps_join added.0 (Keeps_join linked derived) in
    let known = derived.grows usr (linked.grows usr added.1) in
    let returned = add_returns-Keeps env d usr _ known derived.closed in
    let last = add_params-Keeps env d usr _ (returned.grows usr known) returned.closed in
    rw (add_call_none d parent _ other)
      (Keeps_join so_far (Keeps_join returned last), last.grows usr (returned.grows usr known))
