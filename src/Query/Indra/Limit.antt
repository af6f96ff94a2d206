-- ===== src/Query/Indra/Limit.antt =====
-- How many rows `execute` of src/cpp_mcp/graphdb/indradb_query_executor.py returns, and what it says of the
-- others.
use cpp_mcp.Base.{
  ℕ, zero, suc, List, [], ◌∷◌, ◌≟◌, list_eq, nat_eq, map, keep, take, length, length-take, min,
  codes, ◌≡◌, refl, ap, sym, ◌∙◌, inl, inr, arith,
}
use cpp_mcp.Errors.{Result, Result-cases, Returns, Returns-ok, Returns-bind}
use cpp_mcp.Query.Indra.Payload.{Fields, require_args, validate_t, arg}
use cpp_mcp.Query.Indra.Fetch.{
  Vertex, Edge, VertexQuery, all_vertices, EdgeQuery, all_edges, Props, Client, flatten_results,
  Row, coerce_vertex, coerce_edge, props_of_vertex, vertex_index, fetch_vertex_props, props_of_edge,
  edge_index, fetch_edge_props, rows_of,
}
use cpp_mcp.Query.Indra.Rows.{
  Found, property_args, has_property, vertex_rows, edge_rows, specific_rows, specific_edge_rows,
  run_all_vertices, run_all_edges, run_vertex_with_type, run_edge_with_type,
  run_vertex_with_property, run_edge_with_property,
}
use cpp_mcp.Query.Indra.Request.{
  all_vertices_verb, all_edges_verb, vertex_with_type, edge_with_type, vertex_with_property_equal,
  edge_with_property_equal,
}
use cpp_mcp.Query.Indra.Matching.{
  Item, vertex_item, edge_item, item_of, every_vertex, every_edge, vertices_of_type, edges_of_type,
  vertices_with, edges_with, FirstOf, Answers,
}

-- The rows of some items, and the total as it was counted.
abbrev ShowsAll : ℕ → List Item → Found → Type 0
ShowsAll total items found = (found.0 ≡ total) × (map item_of found.1 ≡ items)

map-rows_of :
    {A : Type 0} (item : A → Item) (coerce : A → Props → Row) (f : A → Props)
    → ((a : A) (p : Props) → item_of (coerce a p) ≡ item a)
    → (items : List A) → map item_of (rows_of coerce items (map f items)) ≡ map item items
map-rows_of item coerce f same [] = refl
map-rows_of item coerce f same (a ∷ items) =
    ap (λ x. x ∷ map item_of (rows_of coerce items (map f items))) (same a (f a))
    ∙ ap (λ xs. item a ∷ xs) (map-rows_of item coerce f same items)

ShowsAll-vertex_rows :
    (client : Client) (total : ℕ) (query : VertexQuery) (items : List Vertex)
    → Returns (ShowsAll total (map vertex_item items)) (vertex_rows client total query items)
unfolding vertex_rows fetch_vertex_props
ShowsAll-vertex_rows client total query items = elim (Result-cases (vertex_index client query)) [
  | inr (e, failed) ↦ rw (vertex_rows, fetch_vertex_props, failed) (λ found bad. absurd (cc bad))
  | inl (by_id, e) ↦
      rw (vertex_rows, fetch_vertex_props, e)
        (Returns-ok (ShowsAll total (map vertex_item items)) _
          (refl, map-rows_of vertex_item coerce_vertex (props_of_vertex by_id) (λ v p. refl) items))
]

ShowsAll-edge_rows :
    (client : Client) (total : ℕ) (query : EdgeQuery) (items : List Edge)
    → Returns (ShowsAll total (map edge_item items)) (edge_rows client total query items)
unfolding edge_rows fetch_edge_props
ShowsAll-edge_rows client total query items = elim (Result-cases (edge_index client query)) [
  | inr (e, failed) ↦ rw (edge_rows, fetch_edge_props, failed) (λ found bad. absurd (cc bad))
  | inl (by_key, e) ↦
      rw (edge_rows, fetch_edge_props, e)
        (Returns-ok (ShowsAll total (map edge_item items)) _
          (refl, map-rows_of edge_item coerce_edge (props_of_edge by_key) (λ x p. refl) items))
]

ShowsAll-specific_rows :
    (client : Client) (total : ℕ) (items : List Vertex)
    → Returns (ShowsAll total (map vertex_item items)) (specific_rows client total items)
unfolding specific_rows
ShowsAll-specific_rows client total [] = Returns-ok (ShowsAll total []) (total, []) (refl, refl)
ShowsAll-specific_rows client total (v ∷ items) = ShowsAll-vertex_rows client total _ (v ∷ items)

ShowsAll-specific_edge_rows :
    (client : Client) (total : ℕ) (items : List Edge)
    → Returns (ShowsAll total (map edge_item items)) (specific_edge_rows client total items)
unfolding specific_edge_rows
ShowsAll-specific_edge_rows client total [] =
    Returns-ok (ShowsAll total []) (total, []) (refl, refl)
ShowsAll-specific_edge_rows client total (e ∷ items) = ShowsAll-edge_rows client total _ (e ∷ items)

pub length-map : {A B : Type 0} (f : A → B) (xs : List A) → length (map f xs) ≡ length xs
length-map f [] = refl
length-map f (x ∷ xs) = omega (arith, length-map f xs)

take-map : {A B : Type 0} (f : A → B) (n : ℕ) (xs : List A) → map f (take n xs) ≡ take n (map f xs)
take-map f zero xs = refl
take-map f (suc n) [] = refl
take-map f (suc n) (x ∷ xs) = ap (λ ys. f x ∷ ys) (take-map f n xs)

-- As many rows as items, and the total as it was counted.
abbrev pub Counted : ℕ → ℕ → Found → Type 0
Counted total n found = (found.0 ≡ total) × (length found.1 ≡ n)

pub Counted-specific_rows :
    (client : Client) (total : ℕ) (items : List Vertex)
    → Returns (Counted total (length items)) (specific_rows client total items)
Counted-specific_rows client total items found e =
    let (counted, shown) = ShowsAll-specific_rows client total items found e in
    (counted, sym (length-map item_of found.1) ∙ ap length shown ∙ length-map vertex_item items)

-- As many rows as the limit allows of the total.
abbrev pub First : ℕ → Found → Type 0
First row_limit found = length found.1 ≡ min row_limit found.0

pub First-take :
    {A : Type 0} (row_limit : ℕ) (raw : List A) (r : Result Found)
    → Returns (Counted (length raw) (length (take row_limit raw))) r
    → Returns (First row_limit) r
First-take row_limit raw r h found e =
    let (total, n) = h found e in omega (arith, total, n, length-take row_limit raw)

pub FirstOf-First :
    (row_limit : ℕ) (items : List Item) (found : Found)
    → FirstOf row_limit items found
    → First row_limit found
FirstOf-First row_limit items found (total, shown) =
    omega (
      arith,
      total,
      sym (length-map item_of found.1) ∙ ap length shown,
      length-take row_limit items,
    )

-- Rows of the first of the items that match.
FirstOf-take :
    {A : Type 0} (item : A → Item) (row_limit : ℕ) (raw : List A) (found : Found)
    → ShowsAll (length raw) (map item (take row_limit raw)) found
    → FirstOf row_limit (map item raw) found
FirstOf-take item row_limit raw found (total, shown) =
    (total ∙ sym (length-map item raw), shown ∙ take-map item row_limit raw)

module _ (client : Client) (row_limit : ℕ) (args : Fields) where
  pub Answers-run_all_vertices :
      Returns
        (Answers client row_limit all_vertices_verb args)
        (run_all_vertices client row_limit args)
  unfolding run_all_vertices
  Answers-run_all_vertices =
      let P = Answers client row_limit all_vertices_verb args in
      Returns-bind P (require_args args [] []) _ (λ u e.
        Returns-bind P (client.get_vertices all_vertices) _ (λ batches got found ran.
          let raw = flatten_results batches in
          (
            map vertex_item raw,
            every_vertex batches got,
            FirstOf-take vertex_item row_limit raw found (
                ShowsAll-vertex_rows client (length raw) all_vertices (take row_limit raw) found
                  ran),
          )))

  pub Answers-run_all_edges :
      Returns (Answers client row_limit all_edges_verb args) (run_all_edges client row_limit args)
  unfolding run_all_edges
  Answers-run_all_edges =
      let P = Answers client row_limit all_edges_verb args in
      Returns-bind P (require_args args [] []) _ (λ u e.
        Returns-bind P (client.get_edges all_edges) _ (λ batches got found ran.
          let raw = flatten_results batches in
          (
            map edge_item raw,
            every_edge batches got,
            FirstOf-take edge_item row_limit raw found
                (ShowsAll-edge_rows client (length raw) all_edges (take row_limit raw) found ran),
          )))

  pub Answers-run_vertex_with_type :
      Returns
        (Answers client row_limit vertex_with_type args)
        (run_vertex_with_type client row_limit args)
  unfolding run_vertex_with_type
  Answers-run_vertex_with_type =
      let P = Answers client row_limit vertex_with_type args in
      Returns-bind P (require_args args (codes "t" ∷ []) []) _ (λ u e.
        Returns-bind P (validate_t (arg (codes "t") args)) _ (λ t asked.
          Returns-bind P (client.get_vertices all_vertices) _ (λ batches got found ran.
            let raw = keep (λ (v : Vertex). v.t ≟ t) (flatten_results batches) in
            (
              map vertex_item raw,
              vertices_of_type t batches asked got,
              FirstOf-take vertex_item row_limit raw found
                  (ShowsAll-specific_rows client (length raw) (take row_limit raw) found ran),
            ))))

  pub Answers-run_edge_with_type :
      Returns
        (Answers client row_limit edge_with_type args)
        (run_edge_with_type client row_limit args)
  unfolding run_edge_with_type
  Answers-run_edge_with_type =
      let P = Answers client row_limit edge_with_type args in
      Returns-bind P (require_args args (codes "t" ∷ []) []) _ (λ u e.
        Returns-bind P (validate_t (arg (codes "t") args)) _ (λ t asked.
          Returns-bind P (client.get_edges all_edges) _ (λ batches got found ran.
            let raw = keep (λ (x : Edge). x.t ≟ t) (flatten_results batches) in
            (
              map edge_item raw,
              edges_of_type t batches asked got,
              FirstOf-take edge_item row_limit raw found
                  (ShowsAll-specific_edge_rows client (length raw) (take row_limit raw) found ran),
            ))))

  pub Answers-run_vertex_with_property :
      Returns
        (Answers client row_limit vertex_with_property_equal args)
        (run_vertex_with_property client row_limit args)
  unfolding run_vertex_with_property
  Answers-run_vertex_with_property =
      let P = Answers client row_limit vertex_with_property_equal args in
      Returns-bind P (property_args args) _ (λ wanted asked.
        Returns-bind P (client.get_vertices all_vertices) _ (λ batches got.
          Returns-bind P (vertex_index client all_vertices) _ (λ by_id known.
            let raw =
              keep (λ v. has_property wanted.0 wanted.1 (props_of_vertex by_id v))
                (flatten_results batches) in
            Returns-ok P _ (
              map vertex_item raw,
              vertices_with wanted.0 wanted.1 batches by_id asked got known,
              FirstOf-take vertex_item row_limit raw _ (
                refl,
                map-rows_of vertex_item coerce_vertex (props_of_vertex by_id) (λ v p. refl)
                    (take row_limit raw),
              ),
            ))))

  pub Answers-run_edge_with_property :
      Returns
        (Answers client row_limit edge_with_property_equal args)
        (run_edge_with_property client row_limit args)
  unfolding run_edge_with_property
  Answers-run_edge_with_property =
      let P = Answers client row_limit edge_with_property_equal args in
      Returns-bind P (property_args args) _ (λ wanted asked.
        Returns-bind P (client.get_edges all_edges) _ (λ batches got.
          Returns-bind P (edge_index client all_edges) _ (λ by_key known.
            let raw =
              keep (λ x. has_property wanted.0 wanted.1 (props_of_edge by_key x))
                (flatten_results batches) in
            Returns-ok P _ (
              map edge_item raw,
              edges_with wanted.0 wanted.1 batches by_key asked got known,
              FirstOf-take edge_item row_limit raw _ (
                refl,
                map-rows_of edge_item coerce_edge (props_of_edge by_key) (λ x p. refl)
                    (take row_limit raw),
              ),
            ))))
