-- ===== src/Exporter/Walk/Closed.antt =====
-- When the lists and the set of the walk of src/cpp_mcp/graphdb/exporter.py fit together, and that the
-- creation of a type keeps them so.
use cpp_mcp.Base.{
  Text, String, List, [], ◌∷◌, ◌++◌, Option, none, some, Bool, true, false, ◌||◌, ◌≟◌, list_eq,
  nat_eq, elem, ◌≡◌, inl, inr, refl, arith, All, All-append, All-map, Bool-cases, list_beq_iff,
  beq_refl,
}
use mathlib.Core.List.{map-append}
use cpp_mcp.Exporter.Records.{
  NodeRecord, EdgeRecord, EdgeLabel, inherits, references, Graph, add_node, add_edge, plain, usrs,
}
use cpp_mcp.Exporter.Walk.{is_calls}
use cpp_mcp.Exporter.Types.{
  CType, ctype, Pointee, raises, missing, points, type_usr, type_node, or_empty, is_empty,
  chain_edge, chain, TypeKind, pointer, lvalue_reference, rvalue_reference, other,
  get_or_create_type, get_or_create_pointee, maybe_type,
}

-- The labels whose target may be a symbol of another file.
abbrev pub leaves_file : EdgeLabel → Bool
leaves_file inherits = true
leaves_file references = true
leaves_file _ = false

-- The source is known, the target too unless its label may leave the file, and it is no call.
abbrev pub IsLinked : List Text → EdgeRecord → Type 0
IsLinked known e =
    (elem e.source_usr known ≡ true)
    × ((leaves_file e.edge_type || elem e.target_usr known) ≡ true)
    × (is_calls e.edge_type ≡ false)

-- No text occurs twice.
abbrev pub Distinct : List Text → Type 0
Distinct [] = Unit
Distinct (u ∷ us) = (elem u us ≡ false) × Distinct us

-- The set holds the USRs of the nodes and those whose node is still to come.
pub record IsClosed (pending : List Text) (g : Graph) : Type 0 where
  pub distinct : Distinct (usrs g.nodes)
  pub known : (u : Text) → elem u g.seen ≡ (elem u pending || elem u (usrs g.nodes))
  pub apart : (u : Text) → elem u pending ≡ true → elem u (usrs g.nodes) ≡ false
  pub linked : All (IsLinked g.seen) g.edges

-- What is known stays known.
abbrev pub Grows : Graph → Graph → Type 0
Grows g h = (u : Text) → elem u g.seen ≡ true → elem u h.seen ≡ true

pub elem-append : (u : Text) (xs ys : List Text) → elem u (xs ++ ys) ≡ (elem u xs || elem u ys)
elem-append u [] ys = refl
elem-append u (x ∷ xs) ys = ground (arith, elem-append u xs ys)

elem_single : (u v : Text) → elem u (v ∷ []) ≡ (u ≟ v)
elem_single u v = ground arith

Distinct-append :
    (us : List Text) (u : Text) → Distinct us → elem u us ≡ false → Distinct (us ++ u ∷ [])
Distinct-append [] u d h = (refl, tt)
Distinct-append (v ∷ us) u d h =
    let other : (v ≟ u) ≡ false = ground (arith, list_beq_iff v u, list_beq_iff u v, h) in
    (
      ground (arith, elem-append v us (u ∷ []), elem_single v u, d.0, other),
      Distinct-append us u d.1 (ground (arith, h)),
    )

pub IsLinked-more :
    (known more : List Text) (edges : List EdgeRecord)
    → ((u : Text) → elem u known ≡ true → elem u more ≡ true)
    → All (IsLinked known) edges
    → All (IsLinked more) edges
IsLinked-more known more edges up l =
    All-map (IsLinked known) (IsLinked more) edges
      (λ e h. (up e.source_usr h.0, ground (arith, up e.target_usr, h.1), h.2)) l

pub add_edge-IsClosed :
    (pending : List Text) (e : EdgeRecord) (g : Graph)
    → IsLinked g.seen e
    → IsClosed pending g
    → IsClosed pending (add_edge e g)
unfolding add_edge
add_edge-IsClosed pending e g l c = record {
  distinct = c.distinct;
  known = c.known;
  apart = c.apart;
  linked = All-append (IsLinked g.seen) g.edges (e ∷ []) c.linked (l, tt);
}

pub Grows-cons : (u : Text) (g : Graph) → Grows g (record g { seen = u ∷ g.seen })
Grows-cons u g v h = ground (arith, h)

usrs-append :
    (nodes : List NodeRecord) (n : NodeRecord) → usrs (nodes ++ n ∷ []) ≡ usrs nodes ++ n.usr ∷ []
usrs-append nodes n = map-append _ nodes (n ∷ [])

pub add_node-IsClosed :
    (pending : List Text) (n : NodeRecord) (g : Graph)
    → elem n.usr g.seen ≡ false
    → IsClosed pending g
    → IsClosed pending (add_node n g)
unfolding add_node
add_node-IsClosed pending n g new c = record {
  distinct =
      rw (usrs-append g.nodes n)
        (Distinct-append (usrs g.nodes) n.usr c.distinct (ground (arith, c.known n.usr, new)));
  known = λ u.
      rw (usrs-append g.nodes n)
        (ground (arith, c.known u, elem-append u (usrs g.nodes) (n.usr ∷ []), elem_single u n.usr));
  apart = λ u waits. rw (usrs-append g.nodes n) (
      ground (
        arith,
        c.known n.usr,
        new,
        c.apart u waits,
        list_beq_iff u n.usr,
        elem-append u (usrs g.nodes) (n.usr ∷ []),
        elem_single u n.usr,
        waits,
      ));
  linked = IsLinked-more g.seen (n.usr ∷ g.seen) g.edges (Grows-cons n.usr g) c.linked;
}

-- A USR is announced, and its node comes later.
pub announce-IsClosed :
    (u : Text) (g : Graph)
    → elem u g.seen ≡ false
    → IsClosed [] g
    → IsClosed (u ∷ []) (record g { seen = u ∷ g.seen })
announce-IsClosed u g new c = record {
  distinct = c.distinct;
  known = λ v. ground (arith, c.known v, elem_single v u);
  apart = λ v waits. ground (arith, c.known u, new, list_beq_iff v u, elem_single v u, waits);
  linked = IsLinked-more g.seen (u ∷ g.seen) g.edges (Grows-cons u g) c.linked;
}

-- The node that was announced.
pub settle-IsClosed :
    (n : NodeRecord) (g : Graph)
    → IsClosed (n.usr ∷ []) g
    → IsClosed [] (record g { nodes = g.nodes ++ n ∷ [] })
settle-IsClosed n g c = record {
  distinct = rw (usrs-append g.nodes n) (
      Distinct-append (usrs g.nodes) n.usr c.distinct
        (c.apart n.usr (ground (arith, elem_single n.usr n.usr, beq_refl n.usr))));
  known = λ u.
      rw (usrs-append g.nodes n)
        (ground (arith, c.known u, elem-append u (usrs g.nodes) (n.usr ∷ []), elem_single u n.usr));
  apart = λ u waits. absurd (cc waits);
  linked = c.linked;
}

-- What the creation of a type does: it keeps the graph closed, what was known stays known, and the
-- USR that it returns is known.
pub record IsSettled (pending : List Text) (g : Graph) (result : Graph × Option Text) : Type 0 where
  pub closed : IsClosed pending result.0
  pub grows : Grows g result.0
  pub found : (u : Text) → result.1 ≡ some u → elem u result.0.seen ≡ true

unchanged-IsSettled :
    (pending : List Text) (g : Graph) → IsClosed pending g → IsSettled pending g (g, none)
unchanged-IsSettled pending g c = record {
  closed = c;
  grows = λ u h. h;
  found = λ u h. absurd (cc h);
}

-- The edge of a pointer or a reference.
chain_edge-IsClosed :
    (pending : List Text) (usr : Text) (label : EdgeLabel) (g : Graph) (below : Graph × Option Text)
    → elem usr g.seen ≡ true
    → is_calls label ≡ false
    → IsSettled pending g below
    → IsClosed pending (chain_edge usr label below) × Grows g (chain_edge usr label below)
unfolding chain_edge
chain_edge-IsClosed pending usr label g (h, none) k l s = (s.closed, s.grows)
chain_edge-IsClosed pending usr label g (h, some target) k l s = (
  add_edge-IsClosed pending (plain usr label target) h
      (s.grows usr k, ground (arith, s.found target refl), l) s.closed,
  unfold add_edge in s.grows,
)

chain-IsClosed :
    (pending : List Text) (kind : Option (TypeKind × String)) (usr : Text) (g : Graph)
    (below : Graph × Option Text)
    → elem usr g.seen ≡ true
    → IsClosed pending g
    → IsSettled pending g below
    → IsClosed pending (chain kind usr g below) × Grows g (chain kind usr g below)
unfolding chain
chain-IsClosed pending none usr g below k c s = (c, λ u h. h)
chain-IsClosed pending (some (pointer, name)) usr g below k c s =
    chain_edge-IsClosed pending usr _ g below k refl s
chain-IsClosed pending (some (lvalue_reference, name)) usr g below k c s =
    chain_edge-IsClosed pending usr _ g below k refl s
chain-IsClosed pending (some (rvalue_reference, name)) usr g below k c s =
    chain_edge-IsClosed pending usr _ g below k refl s
chain-IsClosed pending (some (other, name)) usr g below k c s = (c, λ u h. h)

pub Grows-add_node : (n : NodeRecord) (g : Graph) → Grows g (add_node n g)
unfolding add_node
Grows-add_node n g u h = ground (arith, h)

pub seen-add_node : (n : NodeRecord) (g : Graph) → elem n.usr (add_node n g).seen ≡ true
unfolding add_node
seen-add_node n g = ground (arith, beq_refl n.usr)

mutual
  unfolding get_or_create_type

  get_or_create_type-IsSettled :
      (sha1 : Text → Text) (pending : List Text) (t : CType) (g : Graph)
      → IsClosed pending g
      → IsSettled pending g (get_or_create_type sha1 t g)
  get_or_create_type-IsSettled sha1 pending (ctype a pointee) g c =
      let usr = type_usr sha1 (or_empty a.spelling) in
      let created = add_node (type_node sha1 a) g in
      elim (Bool-cases (is_empty (or_empty a.spelling))) [
        | inl blank ↦ rw blank (unchanged-IsSettled pending g c)
        | inr named ↦ elim (Bool-cases (elem usr g.seen)) [
          | inl there ↦
              rw (named, there)
                (record { closed = c; grows = λ u h. h; found = λ u h. ground (arith, there, h) })
          | inr new ↦
              let c' = add_node-IsClosed pending (type_node sha1 a) g new c in
              let below = get_or_create_pointee-IsSettled sha1 pending pointee created c' in
              let here = seen-add_node (type_node sha1 a) g in
              let chained = chain-IsClosed pending a.kind usr created _ here c' below in
              rw (named, new)
                (record {
                  closed = chained.0;
                  grows = λ u h. chained.1 u (Grows-add_node (type_node sha1 a) g u h);
                  found = λ u h. let same : usr ≡ u = cc h in rw (← same) (chained.1 usr here);
                })
        ]
      ]

  get_or_create_pointee-IsSettled :
      (sha1 : Text → Text) (pending : List Text) (p : Pointee) (g : Graph)
      → IsClosed pending g
      → IsSettled pending g (get_or_create_pointee sha1 p g)
  get_or_create_pointee-IsSettled sha1 pending raises g c = unchanged-IsSettled pending g c
  get_or_create_pointee-IsSettled sha1 pending missing g c = unchanged-IsSettled pending g c
  get_or_create_pointee-IsSettled sha1 pending (points t) g c =
      get_or_create_type-IsSettled sha1 pending t g c

pub maybe_type-IsSettled :
    (sha1 : Text → Text) (pending : List Text) (t : Option CType) (g : Graph)
    → IsClosed pending g
    → IsSettled pending g (maybe_type sha1 t g)
unfolding maybe_type
maybe_type-IsSettled sha1 pending none g c = unchanged-IsSettled pending g c
maybe_type-IsSettled sha1 pending (some t) g c = get_or_create_type-IsSettled sha1 pending t g c
