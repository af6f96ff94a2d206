-- ===== src/Exporter/Walk/Steps.antt =====
-- The steps of the walk of src/cpp_mcp/graphdb/exporter.py at one cursor keep the graph closed.
use cpp_mcp.Base.{
  Text, [], Option, none, some, Bool, true, false, ◌||◌, ◌≟◌, list_eq, nat_eq, string_eq, elem, ◌≡◌,
  inl, inr, refl, arith, Bool-cases, Option-cases,
}
use cpp_mcp.Exporter.Variables.{NodeType}
use cpp_mcp.Exporter.Records.{
  EdgeRecord, EdgeLabel, Graph, add_node, add_edge, plain, inherits, of_type, returns,
}
use cpp_mcp.Exporter.Cursor.{
  Details, cursor, Cursors, nil, cons, Export, Parent, file_usr, file_node, derived_kinds,
  function_cursor_kinds, known_usr, kind_of,
}
use cpp_mcp.Exporter.Emit.{
  include_file, definition_label, is_member, refer, has_type, symbol_node, link_type, add_symbol,
  parent_edge, add_bases, add_inherits, add_call, add_returns,
}
use cpp_mcp.Exporter.Walk.{is_calls}
use cpp_mcp.Exporter.Walk.Closed.{
  IsLinked, IsClosed, Grows, add_node-IsClosed, add_edge-IsClosed, IsSettled, maybe_type-IsSettled,
  Grows-add_node, seen-add_node,
}

-- A closed graph in which everything that `g` knows is known.
pub record Keeps (g h : Graph) : Type 0 where
  pub closed : IsClosed [] h
  pub grows : Grows g h

pub keep : (g : Graph) → IsClosed [] g → Keeps g g
keep g c = record { closed = c; grows = λ u h. h }

pub Keeps_trans : {f g h : Graph} → Grows f g → Keeps g h → Keeps f h
Keeps_trans up k = record { closed = k.closed; grows = λ u e. k.grows u (up u e) }

pub Keeps_join : {f g h : Graph} → Keeps f g → Keeps g h → Keeps f h
Keeps_join k l = Keeps_trans k.grows l

-- An edge between known ends.
pub add_edge-Keeps :
    (e : EdgeRecord) (g : Graph) → IsLinked g.seen e → IsClosed [] g → Keeps g (add_edge e g)
add_edge-Keeps e g l c = record {
  closed = add_edge-IsClosed [] e g l c;
  grows = unfold add_edge in λ u h. h;
}

pub include_file-Keeps :
    (env : Export) (d : Details) (g : Graph)
    → elem (file_usr env.file_path) g.seen ≡ true
    → IsClosed [] g
    → Keeps g (include_file env d g)
unfolding include_file
include_file-Keeps env d g f c = elim (Option-cases d.included_file) [
  | inl e ↦ rw e (keep g c)
  | inr (path, e) ↦ elim (Bool-cases (elem (file_usr path) g.seen)) [
    | inl known ↦ rw (e, known) (add_edge-Keeps _ g (f, known, refl) c)
    | inr new ↦
        let n = file_node path path in
        let up = Grows-add_node n g in
        rw (e, new)
          (Keeps_trans up (
            add_edge-Keeps _ (add_node n g) (up (file_usr env.file_path) f, seen-add_node n g, refl)
              (add_node-IsClosed [] n g new c)))
  ]
]

abbrev pub Enclosing : Option Text → Graph → Type 0
Enclosing none g = Unit
Enclosing (some f) g = elem f g.seen ≡ true

abbrev pub Placed : Parent → Graph → Type 0
Placed none g = Unit
Placed (some (u, kind)) g = elem u g.seen ≡ true

pub Placed-Grows : (parent : Parent) (g h : Graph) → Grows g h → Placed parent g → Placed parent h
Placed-Grows none g h up p = tt
Placed-Grows (some (u, kind)) g h up p = up u p

pub Enclosing-Grows :
    (enclosing : Option Text) (g h : Graph)
    → Grows g h
    → Enclosing enclosing g
    → Enclosing enclosing h
Enclosing-Grows none g h up p = tt
Enclosing-Grows (some u) g h up p = up u p

pub refer-Keeps :
    (env : Export) (d : Details) (enclosing : Option Text) (g : Graph)
    → elem (file_usr env.file_path) g.seen ≡ true
    → Enclosing enclosing g
    → IsClosed [] g
    → Keeps g (refer env d enclosing g)
unfolding refer
refer-Keeps env d none g f p c = elim (Option-cases (known_usr d.referenced)) [
  | inl e ↦ rw (refer, e) (keep g c)
  | inr (target, e) ↦ rw (refer, e) (add_edge-Keeps _ g (f, refl, refl) c)
]
refer-Keeps env d (some source) g f p c = elim (Option-cases (known_usr d.referenced)) [
  | inl e ↦ rw (refer, e) (keep g c)
  | inr (target, e) ↦ rw (refer, e) (add_edge-Keeps _ g (p, refl, refl) c)
]

-- The edge to a type.
pub link_type-Keeps :
    (usr : Text) (label : EdgeLabel) (g : Graph) (result : Graph × Option Text)
    → elem usr g.seen ≡ true
    → is_calls label ≡ false
    → IsSettled [] g result
    → Keeps g (link_type usr label result)
unfolding link_type
link_type-Keeps usr label g (h, none) k l s = record { closed = s.closed; grows = s.grows }
link_type-Keeps usr label g (h, some target) k l s = Keeps_trans s.grows (
    add_edge-Keeps (plain usr label target) h
      (s.grows usr k, ground (arith, s.found target refl), l) s.closed)

-- A symbol is known once it was added.
pub add_symbol-Keeps :
    (env : Export) (d : Details) (children : Cursors) (node_type : NodeType) (usr : Text)
    (g : Graph)
    → IsClosed [] g
    → Keeps g (add_symbol env d children node_type usr g)
      × (elem usr (add_symbol env d children node_type usr g).seen ≡ true)
unfolding add_symbol
add_symbol-Keeps env d children node_type usr g c =
    let n = symbol_node d children node_type usr in
    let up = Grows-add_node n g in
    elim (Bool-cases (elem usr g.seen)) [
      | inl there ↦ rw there (keep g c, there)
      | inr new ↦
          let c' = add_node-IsClosed [] n g new c in
          let here = seen-add_node n g in
          elim (Bool-cases (has_type node_type)) [
            | inr bare ↦ rw (new, bare) (record { closed = c'; grows = up }, here)
            | inl typed ↦
                let linked =
                  link_type-Keeps usr of_type (add_node n g) _ here refl
                    (maybe_type-IsSettled env.sha1 [] d.type (add_node n g) c') in
                rw (new, typed) (Keeps_trans up linked, linked.grows usr here)
          ]
    ]

or_right : (a b : Bool) → b ≡ true → (a || b) ≡ true
or_right true b h = refl
or_right false b h = h

no_call : (definition : Option Bool) → is_calls (definition_label definition) ≡ false
no_call none = refl
no_call (some true) = refl
no_call (some false) = refl

pub parent_edge-IsLinked :
    (env : Export) (d : Details) (parent : Parent) (usr : Text) (g : Graph)
    → elem (file_usr env.file_path) g.seen ≡ true
    → Placed parent g
    → elem usr g.seen ≡ true
    → IsLinked g.seen (parent_edge env d parent usr)
unfolding parent_edge
parent_edge-IsLinked env d none usr g f p k = (f, or_right _ _ k, no_call d.is_definition)
parent_edge-IsLinked env d (some (u, kind)) usr g f p k =
    elim (Bool-cases (is_member kind (kind_of d))) [
      | inl member ↦ rw member (k, p, refl)
      | inr other ↦ rw other (p, or_right _ _ k, no_call d.is_definition)
    ]

add_bases-Keeps :
    (usr : Text) (children : Cursors) (g : Graph)
    → elem usr g.seen ≡ true
    → IsClosed [] g
    → Keeps g (add_bases usr children g)
unfolding add_bases
add_bases-Keeps usr nil g k c = keep g c
add_bases-Keeps usr (cons (cursor d children) cs) g k c =
    elim (Bool-cases (kind_of d ≟ "CXX_BASE_SPECIFIER")) [
      | inr other ↦ rw other (add_bases-Keeps usr cs g k c)
      | inl base ↦ elim (Option-cases d.definition) [
        | inl e ↦ rw (base, e) (keep g c)
        | inr (found, e) ↦ elim (Option-cases (known_usr found)) [
          | inl e' ↦ rw (base, e, e') (add_bases-Keeps usr cs g k c)
          | inr (target, e') ↦
              let edge = plain usr inherits target in
              let step = add_edge-Keeps edge g (k, refl, refl) c in
              rw (base, e, e')
                (Keeps_trans step.grows
                  (add_bases-Keeps usr cs (add_edge edge g) (step.grows usr k) step.closed))
        ]
      ]
    ]

pub add_inherits-Keeps :
    (d : Details) (children : Cursors) (usr : Text) (g : Graph)
    → elem usr g.seen ≡ true
    → IsClosed [] g
    → Keeps g (add_inherits d children usr g)
unfolding add_inherits
add_inherits-Keeps d children usr g k c = elim (Bool-cases (elem (kind_of d) derived_kinds)) [
  | inl derived ↦ rw derived (add_bases-Keeps usr children g k c)
  | inr other ↦ rw other (keep g c)
]

pub add_call_none :
    (d : Details) (parent : Parent) (g : Graph)
    → (kind_of d ≟ "CALL_EXPR") ≡ false
    → add_call d parent g ≡ g
unfolding add_call
add_call_none d none g h = refl
add_call_none d (some (u, kind)) g h = rw h refl

pub add_returns-Keeps :
    (env : Export) (d : Details) (usr : Text) (g : Graph)
    → elem usr g.seen ≡ true
    → IsClosed [] g
    → Keeps g (add_returns env d usr g)
unfolding add_returns
add_returns-Keeps env d usr g k c = elim (Bool-cases (elem (kind_of d) function_cursor_kinds)) [
  | inl is_function ↦
      rw is_function (
        link_type-Keeps usr returns g _ k refl (maybe_type-IsSettled env.sha1 [] d.result_type g c))
  | inr other ↦ rw other (keep g c)
]
