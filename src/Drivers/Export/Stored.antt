-- ===== src/Drivers/Export/Stored.antt =====
-- What `export_file` of src/cpp_mcp/graphdb/exporter.py leaves in the database, and what it counts.
use cpp_mcp.Base.{
  ℕ, ◌+◌, Text, List, [], ◌∷◌, true, false, ◌||◌, ◌≟◌, Eq, list_eq, nat_eq, string_eq, elem, map,
  length, ◌≡◌, inl, inr, refl, ap, ◌∙◌, arith, All, All-map, Bool-cases, beq_refl, list_beq_iff,
  pair_eq,
}
use cpp_mcp.Errors.{ok}
use cpp_mcp.Exporter.Records.{NodeRecord, EdgeRecord, usrs}
use cpp_mcp.Exporter.Cursor.{Export, Cursor, file_usr}
use cpp_mcp.Exporter.Walk.{extract_nodes_and_edges}
use cpp_mcp.Exporter.Walk.Closed.{leaves_file, IsLinked, Distinct}
use cpp_mcp.Exporter.Walk.Result.{extract_nodes_and_edges-IsLinked, elem-extract_nodes_and_edges}
use cpp_mcp.Drivers.Contract.{
  Content, put_vertex, write_vertices, write_edges, GraphDriver, edge_key, node_keys, KeepsContract,
}
use cpp_mcp.Drivers.Contract.Again.{write_vertices_lem, write_edges_lem}
use cpp_mcp.Drivers.Export.{Exported, export_file, counts, export_file_lem}

elem-map :
    {A B : Type 0} ⦃e : Eq A⦄ ⦃f : Eq B⦄ (g : A → B) (x : A) (xs : List A)
    → elem x xs ≡ true
    → elem (g x) (map g xs) ≡ true
elem-map g x [] h = absurd (cc h)
elem-map ⦃e⦄ ⦃f⦄ g x (y ∷ ys) h = elim (Bool-cases (x ≟ y)) [
  | inl same ↦
      let same' : (g x ≟ g y) ≡ true = (f.beq_iff (g x) (g y)).1 (ap g ((e.beq_iff x y).0 same)) in
      rw same' refl
  | inr apart ↦ ground (arith, elem-map g x ys (ground (arith, h, apart)))
]

elem_key :
    (key : Text → Text) (ns : List NodeRecord) (u : Text)
    → elem u (usrs ns) ≡ true
    → elem (key u) (node_keys key ns) ≡ true
elem_key key [] u h = absurd (cc h)
elem_key key (n ∷ ns) u h =
    ground (arith, elem_key key ns u, h, beq_refl (key u), list_beq_iff u n.usr)

All-elem-map :
    {A B : Type 0} ⦃f : Eq B⦄ (g : A → B) (xs : List A) → All (λ x. elem (g x) (map g xs) ≡ true) xs
All-elem-map g [] = tt
All-elem-map g (x ∷ xs) = (
  ground (arith, beq_refl (g x)),
  All-map (λ y. elem (g y) (map g xs) ≡ true) (λ y. elem (g y) (map g (x ∷ xs)) ≡ true) xs
      (λ y h. ground (arith, h)) (All-elem-map g xs),
)

All-both :
    {A : Type 0} (P Q R : A → Type 0) (xs : List A)
    → ((x : A) → P x → Q x → R x)
    → All P xs
    → All Q xs
    → All R xs
All-both P Q R [] f p q = tt
All-both P Q R (x ∷ xs) f p q = (f x p.0 q.0, All-both P Q R xs f p.1 q.1)

module _ (key : Text → Text) (ns : List NodeRecord) (es : List EdgeRecord) (d : Content) where
  abbrev before : Content
  before = (write_vertices (node_keys key ns) 0 d).1

  abbrev after : Content
  after = (write_edges (map (edge_key key) es) 0 before).1

  known_key : (u : Text) → elem u (usrs ns) ≡ true → before.vertices (key u) ≡ true
  known_key u h =
      (write_vertices_lem (node_keys key ns) 0 d).0 (key u) ∙ ground (arith, elem_key key ns u h)

  stored_nodes : All (λ (n : NodeRecord). after.vertices (key n.usr) ≡ true) ns
  stored_nodes =
      let kept = (write_edges_lem (map (edge_key key) es) 0 before).0 in
      rw kept (
        All-map (λ (n : NodeRecord). elem (key n.usr) (node_keys key ns) ≡ true) _ ns
          (λ n h. (write_vertices_lem (node_keys key ns) 0 d).0 (key n.usr) ∙ ground (arith, h))
          (All-elem-map (λ (n : NodeRecord). key n.usr) ns))

  stored_edge :
      (e : EdgeRecord)
      → IsLinked (usrs ns) e
      → elem (edge_key key e) (map (edge_key key) es) ≡ true
      → (leaves_file e.edge_type || after.edges (edge_key key e)) ≡ true
  stored_edge e linked member = elim (Bool-cases (leaves_file e.edge_type)) [
    | inl leaves ↦ rw leaves refl
    | inr stays ↦
        let from = known_key e.source_usr linked.0 in
        let to = known_key e.target_usr (ground (arith, linked.1, stays)) in
        let stored = (write_edges_lem (map (edge_key key) es) 0 before).1 (edge_key key e) in
        rw (stored, stays, member, from, to) refl
  ]

  stored_edges :
      All (IsLinked (usrs ns)) es
      → All
          (λ (e : EdgeRecord). (leaves_file e.edge_type || after.edges (edge_key key e)) ≡ true)
          es
  stored_edges linked =
      All-both (IsLinked (usrs ns)) _ _ es stored_edge linked (All-elem-map (edge_key key) es)

still_new :
    (v : Text) (vs : List Text) (c : Content)
    → elem v vs ≡ false
    → All (λ w. c.vertices w ≡ false) vs
    → All (λ w. (put_vertex v c).vertices w ≡ false) vs
still_new v [] c apart new = tt
still_new v (w ∷ vs) c apart new = (
  ground (arith, list_beq_iff v w, list_beq_iff w v, apart, new.0),
  still_new v vs c (ground (arith, apart)) new.1,
)

-- When nothing is known, all is counted.
count_new :
    (vs : List Text) (k : ℕ) (c : Content)
    → Distinct vs
    → All (λ v. c.vertices v ≡ false) vs
    → (write_vertices vs k c).0 ≡ k + length vs
count_new [] k c apart new = omega arith
count_new (v ∷ vs) k c apart new =
    let rest = count_new vs (k + 1) (put_vertex v c) apart.1 (still_new v vs c apart.0 new.1) in
    ground (arith, rest, new.0)

-- What is known of `uuid5`: two USRs of the batch have two identities.
module _ (key : Text → Text) (inj : (u v : Text) → key u ≡ key v → u ≡ v) where
  fresh_key :
      (ns : List NodeRecord) (u : Text)
      → elem u (usrs ns) ≡ false
      → elem (key u) (node_keys key ns) ≡ false
  fresh_key [] u h = refl
  fresh_key (n ∷ ns) u h = ground (
    arith,
    fresh_key ns u,
    h,
    inj u n.usr,
    list_beq_iff (key u) (key n.usr),
    list_beq_iff u n.usr,
  )

  Distinct-node_keys : (ns : List NodeRecord) → Distinct (usrs ns) → Distinct (node_keys key ns)
  Distinct-node_keys [] h = tt
  Distinct-node_keys (n ∷ ns) h = (fresh_key ns n.usr h.0, Distinct-node_keys ns h.1)

length-node_keys :
    (key : Text → Text) (ns : List NodeRecord) → length (node_keys key ns) ≡ length ns
length-node_keys key [] = refl
length-node_keys key (n ∷ ns) = omega (arith, length-node_keys key ns)

All-node_keys :
    (key : Text → Text) (P : Text → Type 0) (ns : List NodeRecord)
    → All (λ (n : NodeRecord). P (key n.usr)) ns
    → All P (node_keys key ns)
All-node_keys key P [] h = tt
All-node_keys key P (n ∷ ns) h = (h.0, All-node_keys key P ns h.1)

module _ {S : Type 0} (driver : GraphDriver S) (view : S → Content) (key : Text → Text)
    (contract : KeepsContract driver view key) (env : Export) (c : Cursor) where
  -- With a driver that keeps to the contract, the export of a unit ends without an exception and
  -- leaves in the database a vertex for each extracted node and each extracted edge but those of
  -- INHERITS and REFERENCES, whose target may be a symbol of another file.
  pub export_file-stores :
      (s : S)
      → (t : S) × (r : Exported) × (export_file driver env c s ≡ (t, ok r))
        × All
            (λ (n : NodeRecord). (view t).vertices (key n.usr) ≡ true)
            (extract_nodes_and_edges env c).0
        × All
            (λ (e : EdgeRecord).
              (leaves_file e.edge_type || (view t).edges (edge_key key e)) ≡ true)
            (extract_nodes_and_edges env c).1
  export_file-stores s =
      let (t, ran, seen) = export_file_lem driver view key contract env c s in
      let (ns, es) = extract_nodes_and_edges env c in
      (
        t,
        counts driver view key contract env c (view s),
        ran,
        rw seen (stored_nodes key ns es (view s)),
        rw seen (stored_edges key ns es (view s) (extract_nodes_and_edges-IsLinked env c).1),
      )

  -- An export adds to the content, and stores the node of the file.
  pub export_file-adds :
      (s : S)
      → (t : S) × (r : Exported) × (export_file driver env c s ≡ (t, ok r))
        × ((v : Text) → (view s).vertices v ≡ true → (view t).vertices v ≡ true)
        × ((view t).vertices (key (file_usr env.file_path)) ≡ true)
  export_file-adds s =
      let (t, ran, seen) = export_file_lem driver view key contract env c s in
      let (ns, es) = extract_nodes_and_edges env c in
      let vs = node_keys key ns in
      let here = elem_key key ns (file_usr env.file_path) (elem-extract_nodes_and_edges env c) in
      let kept = (write_edges_lem (map (edge_key key) es) 0 (before key ns es (view s))).0 in
      let wrote = (write_vertices_lem vs 0 (view s)).0 in
      (
        t,
        counts driver view key contract env c (view s),
        ran,
        λ v h. rw (seen, kept, wrote v) (ground (arith, h)),
        rw (seen, kept, wrote (key (file_usr env.file_path)), here) refl,
      )

  -- With a driver that keeps to the contract and whose identities tell two USRs apart, a unit of
  -- which no node is stored yet is exported with as many nodes written as were attempted.
  pub export_file-first :
      ((u v : Text) → key u ≡ key v → u ≡ v)
      → (s : S)
      → All
          (λ (n : NodeRecord). (view s).vertices (key n.usr) ≡ false)
          (extract_nodes_and_edges env c).0
      → (t : S) × (r : Exported) × (export_file driver env c s ≡ (t, ok r))
        × (r.nodes_written ≡ r.nodes_attempted)
  export_file-first inj s new =
      let (t, ran, seen) = export_file_lem driver view key contract env c s in
      let (ns, es) = extract_nodes_and_edges env c in
      let counted =
        count_new (node_keys key ns) 0 (view s)
          (Distinct-node_keys key inj ns (extract_nodes_and_edges-IsLinked env c).0)
          (All-node_keys key _ ns new) in
      (
        t,
        counts driver view key contract env c (view s),
        ran,
        omega (arith, counted, length-node_keys key ns),
      )
