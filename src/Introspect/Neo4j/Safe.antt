-- ===== src/Introspect/Neo4j/Safe.antt =====
-- Which queries the introspection of Neo4j (src/cpp_mcp/graphdb/schema_introspector.py) sends.
use mathlib.Core.Path.{fun_ext}
use cpp_mcp.Base.{
  ℕ, Text, List, [], ◌∷◌, elem, Option, true, false, nat_eq, ◌≡◌, refl, arith, inl, inr, Bool-cases,
}
use cpp_mcp.Errors.{Result}
use cpp_mcp.Query.Indra.Payload.{is_ident, ident_rest}
use cpp_mcp.Introspect.Neo4j.{
  Session, CountRecord, node_query, edge_query, describe_types, describe, describe_with,
}

-- The name does not end the quotes that it is put in.
abbrev pub IsQuotable : Text → Type 0
IsQuotable name = elem b'`' name ≡ false

ident_rest-IsQuotable : (s : Text) → ident_rest s ≡ true → IsQuotable s
unfolding ident_rest
ident_rest-IsQuotable [] h = refl
ident_rest-IsQuotable (c ∷ []) h = ground (arith, h)
ident_rest-IsQuotable (c ∷ d ∷ s) h =
    let rest = ident_rest-IsQuotable (d ∷ s) (ground (arith, h)) in ground (arith, h, rest)

is_ident-IsQuotable : (s : Text) → is_ident s ≡ true → IsQuotable s
unfolding is_ident
is_ident-IsQuotable [] h = refl
is_ident-IsQuotable (c ∷ s) h =
    let rest = ident_rest-IsQuotable s (ground (arith, h)) in ground (arith, h, rest)

abbrev AgreeOn :
    (Text → Text)
    → (Text → ℕ → Result (Option CountRecord))
    → (Text → ℕ → Result (Option CountRecord))
    → Type 0
AgreeOn query_of run run' =
    (name : Text) (sample_size : ℕ)
    → IsQuotable name
    → run (query_of name) sample_size ≡ run' (query_of name) sample_size

describe_types_same :
    (query_of : Text → Text) (run run' : Text → ℕ → Result (Option CountRecord)) (sample_size : ℕ)
    (names : List Text)
    → AgreeOn query_of run run'
    → describe_types query_of run sample_size names ≡ describe_types query_of run' sample_size names
unfolding describe_types
describe_types_same query_of run run' sample_size [] agree = refl
describe_types_same query_of run run' sample_size (name ∷ names) agree =
    let ih = describe_types_same query_of run run' sample_size names agree in
    elim (Bool-cases (is_ident name)) [
      | inr unsafe ↦ rw unsafe ih
      | inl safe ↦ rw (safe, ih, agree name sample_size (is_ident-IsQuotable name safe)) refl
    ]

-- No label or relationship type with a backtick is put into a query: the description is the same for
-- any two sessions that list the same labels and types and agree on the queries for the names
-- without one.
pub describe_quotable :
    (session : Session) (run' : Text → ℕ → Result (Option CountRecord)) (sample_size : ℕ)
    → ((name : Text) (size : ℕ)
        → elem b'`' name ≡ false
        → (session.run (node_query name) size ≡ run' (node_query name) size)
          × (session.run (edge_query name) size ≡ run' (edge_query name) size))
    → describe session sample_size ≡ describe (record session { run = run' }) sample_size
unfolding describe
describe_quotable session run' sample_size agree =
    let nodes = fun_ext λ (names : List Text).
      describe_types_same node_query session.run run' sample_size names
        (λ n k q. (agree n k q).0) in
    let edges = fun_ext λ (names : List Text).
      describe_types_same edge_query session.run run' sample_size names
        (λ n k q. (agree n k q).1) in
    λ i. describe_with session.labels session.relationship_types (nodes i) (edges i)
