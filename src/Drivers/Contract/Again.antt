-- ===== src/Drivers/Contract/Again.antt =====
-- What an upsert by the contract of src/cpp_mcp/graphdb/driver.py leaves, and that it changes nothing the
-- second time.
use cpp_mcp.Base.{
  ℕ, ◌+◌, Text, List, [], ◌∷◌, Bool, true, false, not, ◌&&◌, ◌||◌, ◌≟◌, Eq, list_eq, nat_eq,
  string_eq, elem, if◌then◌else◌, ◌≡◌, inl, inr, refl, sym, ap, ◌∙◌, arith, All, All-map,
  Bool-cases, beq_refl, pair_eq, pair_beq_iff,
}
use cpp_mcp.Drivers.Contract.{
  Edge, Content, put_vertex, has_ends, put_edge, write_vertices, write_edges, put_vertex_again,
  put_edge_again,
}

pub write_vertices_lem :
    (vs : List Text) (k : ℕ) (c : Content)
    → ((w : Text) → (write_vertices vs k c).1.vertices w ≡ (elem w vs || c.vertices w))
      × ((write_vertices vs k c).1.edges ≡ c.edges)
write_vertices_lem [] k c = (λ w. refl, refl)
write_vertices_lem (v ∷ vs) k c =
    let rest = write_vertices_lem vs (if c.vertices v then k else k + 1) (put_vertex v c) in
    (λ w. ground (arith, rest.0 w), rest.1)

same_ends : (f e : Edge) (c : Content) → ((f ≟ e) && has_ends e c) ≡ ((f ≟ e) && has_ends f c)
same_ends f e c = elim (Bool-cases (f ≟ e)) [
  | inl same ↦ ap (λ g. (f ≟ e) && has_ends g c) (sym ((pair_beq_iff f e).0 same))
  | inr other ↦ rw other refl
]

pub write_edges_lem :
    (es : List Edge) (k : ℕ) (c : Content)
    → ((write_edges es k c).1.vertices ≡ c.vertices)
      × ((f : Edge) → (write_edges es k c).1.edges f ≡ ((elem f es && has_ends f c) || c.edges f))
write_edges_lem [] k c = (refl, λ f. refl)
write_edges_lem (e ∷ es) k c =
    let k' = if c.edges e then k else if has_ends e c then k + 1 else k in
    let rest = write_edges_lem es k' (put_edge e c) in
    (rest.0, λ f. ground (arith, rest.1 f, same_ends f e c))

-- What is known is not counted.
known_vertices :
    (vs : List Text) (k : ℕ) (c : Content)
    → All (λ v. c.vertices v ≡ true) vs
    → write_vertices vs k c ≡ (k, c)
known_vertices [] k c h = refl
known_vertices (v ∷ vs) k c h = rw (h.0, put_vertex_again v c h.0) (known_vertices vs k c h.1)

settled_edges :
    (es : List Edge) (k : ℕ) (c : Content)
    → All (λ e. (c.edges e || not (has_ends e c)) ≡ true) es
    → write_edges es k c ≡ (k, c)
settled_edges [] k c h = refl
settled_edges (e ∷ es) k c h = elim (Bool-cases (c.edges e)) [
  | inl there ↦ rw (there, put_edge_again e c h.0) (settled_edges es k c h.1)
  | inr new ↦
      let lone : has_ends e c ≡ false = ground (arith, h.0, new) in
      rw (put_edge_again e c h.0, new, lone) (settled_edges es k c h.1)
]

pub All-elem {ℓ} : {A : Type ℓ} ⦃e : Eq A⦄ (xs : List A) → All (λ x. elem x xs ≡ true) xs
All-elem [] = tt
All-elem ⦃e⦄ (x ∷ xs) = (
  ground (arith, beq_refl x),
  All-map (λ y. elem y xs ≡ true) (λ y. elem y (x ∷ xs) ≡ true) xs (λ y h. ground (arith, h))
      (All-elem xs),
)

settled : (a b : Bool) → ((a || b) || not a) ≡ true
settled true b = refl
settled false true = refl
settled false false = refl

-- An upsert of nodes, once more: whatever was written in between, if the vertices are still there.
pub write_vertices_again :
    (vs : List Text) (j k : ℕ) (c d : Content)
    → d.vertices ≡ (write_vertices vs j c).1.vertices
    → write_vertices vs k d ≡ (k, d)
write_vertices_again vs j k c d same = known_vertices vs k d (
    All-map (λ v. elem v vs ≡ true) (λ v. d.vertices v ≡ true) vs
      (λ v h. rw same ((write_vertices_lem vs j c).0 v ∙ ground (arith, h))) (All-elem vs))

-- An upsert of edges, once more: an edge that was dropped is dropped again.
pub write_edges_again :
    (es : List Edge) (j k : ℕ) (c : Content)
    → write_edges es k (write_edges es j c).1 ≡ (k, (write_edges es j c).1)
write_edges_again es j k c =
    let lem = write_edges_lem es j c in
    settled_edges es k (write_edges es j c).1 (
      All-map (λ e. elem e es ≡ true) _ es
        (λ e h. rw (lem.0, lem.1 e, h) (settled (has_ends e c) (c.edges e))) (All-elem es))
