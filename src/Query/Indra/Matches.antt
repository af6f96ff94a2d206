-- ===== src/Query/Indra/Matches.antt =====
-- What the rows of the property queries of src/cpp_mcp/graphdb/indradb_query_executor.py have.
use cpp_mcp.Base.{
  ℕ, Text, List, [], ◌∷◌, Option, none, some, Bool, true, false, list_eq, nat_eq, map, keep, take,
  zero, suc, ◌≡◌, ◌⊎◌, refl, sym, ◌∙◌, inl, inr, Bool-cases, Option-cases, All, All-map,
}
use cpp_mcp.OrderedDict.{get}
use cpp_mcp.Errors.{ok, Returns, Returns-ok, Returns-bind}
use cpp_mcp.Query.Indra.Payload.{Json, null, Fields, scalar_eq}
use cpp_mcp.Query.Indra.Fetch.{
  all_vertices, all_edges, Props, Client, flatten_results, Row, vertex_row, edge_row, coerce_vertex,
  coerce_edge, props_of_vertex, vertex_index, props_of_edge, edge_index, rows_of,
}
use cpp_mcp.Query.Indra.Rows.{
  Found, property_args, has_property, run_vertex_with_property, run_edge_with_property,
}

All-keep : {A : Type 0} (p : A → Bool) (xs : List A) → All (λ x. p x ≡ true) (keep p xs)
All-keep p [] = tt
All-keep p (x ∷ xs) = elim (Bool-cases (p x)) [
  | inl kept ↦ rw kept (kept, All-keep p xs)
  | inr left ↦ rw left (All-keep p xs)
]

All-take : {A : Type 0} (P : A → Type 0) (n : ℕ) (xs : List A) → All P xs → All P (take n xs)
All-take P zero xs h = tt
All-take P (suc n) [] h = tt
All-take P (suc n) (x ∷ xs) h = (h.0, All-take P n xs h.1)

All-rows_of :
    {A : Type 0} (P : Row → Type 0) (coerce : A → Props → Row) (f : A → Props) (items : List A)
    → All (λ x. P (coerce x (f x))) items
    → All P (rows_of coerce items (map f items))
All-rows_of P coerce f [] h = tt
All-rows_of P coerce f (x ∷ items) h = (h.0, All-rows_of P coerce f items h.1)

abbrev pub props_of_row : Row → Props
props_of_row (vertex_row id t props) = props
props_of_row (edge_row source target t props) = props

abbrev pub is_null : Json → Bool
is_null null = true
is_null _ = false

-- The row has the property, with an equal value.
abbrev pub HasProperty : Text → Json → Row → Type 0
HasProperty name value row =
    (v : Json) × (get name (props_of_row row) ≡ some v) × (scalar_eq v value ≡ true)

null_only : (value : Json) → scalar_eq null value ≡ true → is_null value ≡ true
unfolding scalar_eq
null_only null h = refl
null_only _ h = absurd (cc h)

has_property_at :
    (name : Text) (value : Json) (props : Props) (o : Option Json)
    → get name props ≡ o
    → has_property name value props ≡ scalar_eq (elim o [ none ↦ null | some v ↦ v ]) value
unfolding has_property
has_property_at name value props o e = rw (has_property, e) refl

has_property_lem :
    (name : Text) (value : Json) (props : Props)
    → is_null value ≡ false
    → has_property name value props ≡ true
    → (v : Json) × (get name props ≡ some v) × (scalar_eq v value ≡ true)
has_property_lem name value props real h = elim (Option-cases (get name props)) [
  | inl missing ↦
      let bad = null_only value (sym (has_property_at name value props none missing) ∙ h) in
      absurd (cc (bad, real))
  | inr (v, e) ↦ (v, e, sym (has_property_at name value props (some v) e) ∙ h)
]

module _ (client : Client) (row_limit : ℕ) (args : Fields) (name : Text) (value : Json)
    (asked : property_args args ≡ ok (name, value)) (real : is_null value ≡ false) where
  abbrev P : Found → Type 0
  P found = All (HasProperty name value) found.1

  matching :
      {A : Type 0} (coerce : A → Props → Row) (f : A → Props) (raw : List A)
      → ((x : A) → props_of_row (coerce x (f x)) ≡ f x)
      → All (HasProperty name value) (
          rows_of coerce
            (take row_limit (keep (λ x. has_property name value (f x)) raw))
            (map f (take row_limit (keep (λ x. has_property name value (f x)) raw))))
  matching {A} coerce f raw same =
      let kept = keep (λ x. has_property name value (f x)) raw in
      All-rows_of (HasProperty name value) coerce f (take row_limit kept) (
        All-map (λ x. has_property name value (f x) ≡ true) _ (take row_limit kept)
          (λ x h. rw (same x) (has_property_lem name value (f x) real h))
          (All-take _ row_limit kept (All-keep (λ x. has_property name value (f x)) raw)))

  vertices : Returns P (run_vertex_with_property client row_limit args)
  unfolding run_vertex_with_property
  vertices =
      rw (run_vertex_with_property, asked)
        (Returns-bind P (client.get_vertices all_vertices) _ (λ batches e.
          Returns-bind P (vertex_index client all_vertices) _ (λ by_id e'. Returns-ok P _ (
            matching coerce_vertex (props_of_vertex by_id) (flatten_results batches) (λ v. refl)))))

  edges : Returns P (run_edge_with_property client row_limit args)
  unfolding run_edge_with_property
  edges =
      rw (run_edge_with_property, asked)
        (Returns-bind P (client.get_edges all_edges) _ (λ batches e.
          Returns-bind P (edge_index client all_edges) _ (λ by_key e'.
            Returns-ok P _
              (matching coerce_edge (props_of_edge by_key) (flatten_results batches) (λ v. refl)))))

-- A query for a property with a value that is not null gives only vertices, or edges, that have
-- the property with an equal value.
pub run_with_property-HasProperty :
    (client : Client) (row_limit : ℕ) (args : Fields) (name : Text) (value : Json)
    → property_args args ≡ ok (name, value)
    → is_null value ≡ false
    → (found : Found)
    → (run_vertex_with_property client row_limit args ≡ ok found)
      ⊎ (run_edge_with_property client row_limit args ≡ ok found)
    → All (HasProperty name value) found.1
run_with_property-HasProperty client row_limit args name value asked real found ran = elim ran [
  | inl r ↦ vertices client row_limit args name value asked real found r
  | inr r ↦ edges client row_limit args name value asked real found r
]
