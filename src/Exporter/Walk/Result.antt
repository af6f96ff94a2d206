-- ===== src/Exporter/Walk/Result.antt =====
-- The graph that `extract_nodes_and_edges` of src/cpp_mcp/graphdb/exporter.py answers.
use cpp_mcp.Base.{
  Text, List, [], ◌∷◌, Option, none, some, true, false, ◌≟◌, list_eq, string_eq, nat_eq, elem, any,
  ◌≡◌, inl, inr, refl, arith, All, Bool-cases, Option-cases, eq_iff, beq_refl,
}
use cpp_mcp.OrderedDict.{get}
use cpp_mcp.Exporter.Variables.{NodeType, classify_node}
use cpp_mcp.Exporter.Records.{EdgeRecord, Graph, usrs}
use cpp_mcp.Exporter.Cursor.{
  Details, Cursor, cursor, Cursors, nil, cons, Export, Parent, file_usr, kind_of,
  reference_cursor_kinds, function_cursor_kinds,
}
use cpp_mcp.Exporter.Emit.{refer, is_elsewhere, emit_symbol}
use cpp_mcp.Exporter.Walk.{
  symbol_of, next_enclosing, walk_cursor, walk_children, is_calls, first_graph, drop_doubled,
  extract_nodes_and_edges,
}
use cpp_mcp.Exporter.Walk.Closed.{IsLinked, Distinct, IsClosed, IsLinked-more}
use cpp_mcp.Exporter.Walk.Steps.{
  Keeps, keep, Keeps_join, Enclosing, Placed, Placed-Grows, Enclosing-Grows, include_file-Keeps,
  refer-Keeps,
}
use cpp_mcp.Exporter.Walk.Symbol.{emit_symbol-Keeps}

-- A symbol's kind is in the table, and that of a call is not.
symbol_of-call : (d : Details) → (kind_of d ≟ "CALL_EXPR") ≡ true → symbol_of d ≡ none
unfolding symbol_of classify_node get
symbol_of-call d h = rw (symbol_of, classify_node, (eq_iff (kind_of d) "CALL_EXPR").0 h) refl

symbol_of-other :
    (d : Details) (found : NodeType × Text)
    → symbol_of d ≡ some found
    → (kind_of d ≟ "CALL_EXPR") ≡ false
symbol_of-other d found e = elim (Bool-cases (kind_of d ≟ "CALL_EXPR")) [
  | inl call ↦ absurd (let h = symbol_of-call d call in cc (h, e))
  | inr other ↦ other
]

next_enclosing-Enclosing :
    (d : Details) (usr : Text) (enclosing : Option Text) (g : Graph)
    → elem usr g.seen ≡ true
    → Enclosing enclosing g
    → Enclosing (next_enclosing d usr enclosing) g
next_enclosing-Enclosing d usr enclosing g k p =
    elim (Bool-cases (elem (kind_of d) function_cursor_kinds)) [
      | inl is_function ↦ rw is_function k
      | inr other ↦ rw other p
    ]

mutual
  unfolding walk_cursor

  walked_cursor :
      (env : Export) (c : Cursor) (parent : Parent) (enclosing : Option Text) (g : Graph)
      → elem (file_usr env.file_path) g.seen ≡ true
      → Placed parent g
      → Enclosing enclosing g
      → IsClosed [] g
      → Keeps g (walk_cursor env c parent enclosing g)
  walked_cursor env (cursor d children) parent enclosing g f p q c =
      elim (Bool-cases (kind_of d ≟ "PARM_DECL")) [
        | inl is_param ↦ rw is_param (keep g c)
        | inr h1 ↦ elim (Bool-cases (kind_of d ≟ "INCLUSION_DIRECTIVE")) [
          | inl inclusion ↦ rw (h1, inclusion) (include_file-Keeps env d g f c)
          | inr h2 ↦ elim (Bool-cases (elem (kind_of d) reference_cursor_kinds)) [
            | inl reference ↦
                let step = refer-Keeps env d enclosing g f q c in
                let g' = refer env d enclosing g in
                rw (h1, h2, reference)
                  (Keeps_join step (
                    walked_children env children parent enclosing g'
                      (step.grows (file_usr env.file_path) f)
                      (Placed-Grows parent g g' step.grows p)
                      (Enclosing-Grows enclosing g g' step.grows q) step.closed))
            | inr h3 ↦ elim (Bool-cases (is_elsewhere env d)) [
              | inl elsewhere ↦
                  rw (h1, h2, h3, elsewhere)
                    (walked_children env children none enclosing g f tt q c)
              | inr h4 ↦ elim (Option-cases (symbol_of d)) [
                | inl e ↦
                    rw (h1, h2, h3, h4, e) (walked_children env children parent enclosing g f p q c)
                | inr ((node_type, usr), e) ↦
                    let g' = emit_symbol env d children parent node_type usr g in
                    let step =
                      emit_symbol-Keeps env d children parent node_type usr g
                        (symbol_of-other d (node_type, usr) e) f p c in
                    let up = step.0.grows in
                    rw (h1, h2, h3, h4, e)
                      (Keeps_join step.0 (
                        walked_children env children (some (usr, kind_of d))
                          (next_enclosing d usr enclosing) g' (up (file_usr env.file_path) f) step.1
                          (next_enclosing-Enclosing d usr enclosing g' step.1
                            (Enclosing-Grows enclosing g g' up q))
                          step.0.closed))
              ]
            ]
          ]
        ]
      ]

  walked_children :
      (env : Export) (cs : Cursors) (parent : Parent) (enclosing : Option Text) (g : Graph)
      → elem (file_usr env.file_path) g.seen ≡ true
      → Placed parent g
      → Enclosing enclosing g
      → IsClosed [] g
      → Keeps g (walk_children env cs parent enclosing g)
  walked_children env nil parent enclosing g f p q c = keep g c
  walked_children env (cons x cs) parent enclosing g f p q c =
      let step = walked_cursor env x parent enclosing g f p q c in
      let g' = walk_cursor env x parent enclosing g in
      Keeps_join step (
        walked_children env cs parent enclosing g' (step.grows (file_usr env.file_path) f)
          (Placed-Grows parent g g' step.grows p) (Enclosing-Grows enclosing g g' step.grows q)
          step.closed)

first_graph-IsClosed : (env : Export) → IsClosed [] (first_graph env)
first_graph-IsClosed env = record {
  distinct = (refl, tt);
  known = λ u. refl;
  apart = λ u waits. absurd (cc waits);
  linked = tt;
}

walk_cursor-IsClosed :
    (env : Export) (c : Cursor) → IsClosed [] (walk_cursor env c none none (first_graph env))
walk_cursor-IsClosed env c =
    (walked_cursor env c none none (first_graph env)
      (ground (arith, beq_refl (file_usr env.file_path))) tt tt (first_graph-IsClosed env)).closed

-- The node of the file itself is among them.
pub elem-extract_nodes_and_edges :
    (env : Export) (c : Cursor)
    → elem (file_usr env.file_path) (usrs (extract_nodes_and_edges env c).0) ≡ true
unfolding extract_nodes_and_edges
elem-extract_nodes_and_edges env c =
    let here : elem (file_usr env.file_path) (first_graph env).seen ≡ true =
      ground (arith, beq_refl (file_usr env.file_path)) in
    let walked =
      walked_cursor env c none none (first_graph env) here tt tt (first_graph-IsClosed env) in
    ground (
      arith,
      walked.closed.known (file_usr env.file_path),
      walked.grows (file_usr env.file_path) here,
    )

any_none :
    (known : List Text) (edges : List EdgeRecord)
    → All (IsLinked known) edges
    → any (λ (e : EdgeRecord). is_calls e.edge_type) edges ≡ false
any_none known [] l = refl
any_none known (e ∷ edges) l = ground (arith, l.0.2, any_none known edges l.1)

-- Of a unit, no extracted edge is a CALLS edge, so the step that drops the references which
-- double a call changes nothing: the extracted edges are those of the walk.
pub extract_nodes_and_edges-drop_doubled :
    (env : Export) (c : Cursor)
    → (any (λ (e : EdgeRecord). is_calls e.edge_type) (extract_nodes_and_edges env c).1 ≡ false)
      × ((extract_nodes_and_edges env c).1 ≡ (walk_cursor env c none none (first_graph env)).edges)
unfolding extract_nodes_and_edges drop_doubled
extract_nodes_and_edges-drop_doubled env c =
    let quiet = any_none _ _ (walk_cursor-IsClosed env c).linked in rw quiet (quiet, refl)

-- Of a unit, the extracted nodes have different USRs, and every extracted edge starts at an extracted
-- node and, unless it is an INHERITS or a REFERENCES edge, ends at one.
pub extract_nodes_and_edges-IsLinked :
    (env : Export) (c : Cursor)
    → Distinct (usrs (extract_nodes_and_edges env c).0)
      × All (IsLinked (usrs (extract_nodes_and_edges env c).0)) (extract_nodes_and_edges env c).1
unfolding extract_nodes_and_edges
extract_nodes_and_edges-IsLinked env c =
    let closed = walk_cursor-IsClosed env c in
    let kept = (extract_nodes_and_edges-drop_doubled env c).1 in
    (
      closed.distinct,
      rw kept (
          IsLinked-more _ _ _ (λ u (h : elem u _ ≡ true). ground (arith, closed.known u, h))
            closed.linked),
    )
