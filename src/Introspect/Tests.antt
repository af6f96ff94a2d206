-- ===== src/Introspect/Tests.antt =====
-- The introspection of src/cpp_mcp/graphdb/schema_introspector.py and the tool of
-- src/cpp_mcp/tools/describe_graph_schema.py on small databases, and the theorems at them.
use cpp_mcp.Base.{
  ℕ, Text, Bool, true, false, List, [], ◌∷◌, Option, none, some, ◌≡◌, refl, codes, pos, negsuc,
  elem, if◌then◌else◌, list_eq, nat_eq, ap, ◌∙◌, ltb, ◌==◌, ◌+◌, ◌++◌, arith,
}
use cpp_mcp.Errors.{Result, ok, raise, query_timeout_error}
use cpp_mcp.Query.Indra.Payload.{Json, text, is_ident}
use cpp_mcp.Query.Indra.Fetch.{
  Vertex, Edge, Props, Client, VertexQuery, all_vertices, flatten_results,
}
use cpp_mcp.Introspect.Entries.{sort_types, total}
use cpp_mcp.Introspect.Indra
use cpp_mcp.Introspect.Indra.{Description, sample_note, live_note, version_note}
use cpp_mcp.Introspect.Indra.Counts.{Describes, describe-Describes}
use cpp_mcp.Introspect.Neo4j
use cpp_mcp.Introspect.Neo4j.{Session, CountRecord, node_query, edge_query}
use cpp_mcp.Introspect.Neo4j.Safe.{describe_quotable}
use cpp_mcp.Introspect.Tool.{Introspector, connected, described, closed, describe_graph_schema}

abbrev vertex : Text → Text → Vertex
vertex id t = record { id = id; t = t }

abbrev vertices : List (List Vertex)
vertices =
    (vertex (codes "1") (codes "File") ∷ vertex (codes "2") (codes "Class") ∷ [])
    ∷ (vertex (codes "3") (codes "Class") ∷ [])
    ∷ []

abbrev edge : Edge
edge = record { outbound_id = codes "1"; t = codes "DEFINES"; inbound_id = codes "2" }

abbrev props : Props
props = (codes "schema_version", text (codes "v1")) ∷ (codes "path", text (codes "/a")) ∷ []

abbrev answer_vertices : VertexQuery → Result (List (List Vertex))
answer_vertices all_vertices = ok vertices
answer_vertices _ = ok []

-- A file of an older version, with two classes.
abbrev client : Client
client = record {
  has_outbound = true;
  get_vertices = answer_vertices;
  get_edges = λ q. ok ((edge ∷ []) ∷ []);
  get_vertex_props = λ q. ok (((vertex (codes "1") (codes "File"), props) ∷ []) ∷ []);
  get_edge_props = λ q. ok [];
}

abbrev str : Json → Text
str (text t) = t
str _ = []

abbrev keys : List Text
keys = codes "path" ∷ codes "schema_version" ∷ []

abbrev description : Description
description = record {
  node_types =
      record { name = codes "Class"; count = 2; property_keys = keys }
      ∷ record { name = codes "File"; count = 1; property_keys = keys }
      ∷ [];
  edge_types = record { name = codes "DEFINES"; count = 1; property_keys = [] } ∷ [];
  vertices = 3;
  edges = 1;
  notes = sample_note ∷ live_note ∷ version_note (codes "v1") ∷ [];
}

described_client : Indra.describe str client 10 ≡ ok description
unfolding Indra.describe sort_types total
described_client = refl

describe-Describes_example :
    Describes
      (λ (v : Vertex). v.t)
      (flatten_results vertices)
      description.node_types
      description.vertices
    × Describes
        (λ (e : Edge). e.t)
        (flatten_results ((edge ∷ []) ∷ []))
        description.edge_types
        description.edges
describe-Describes_example =
    describe-Describes str client 10 vertices ((edge ∷ []) ∷ []) description refl refl
      described_client

ticks : Text → ℕ
ticks [] = 0
ticks (c ∷ s) = (if c == b'`' then 1 else 0) + ticks s

ticks-append : (s t : Text) → ticks (s ++ t) ≡ ticks s + ticks t
unfolding ticks
ticks-append [] t = omega arith
ticks-append (c ∷ s) t = omega (arith, ticks-append s t)

ticks-quotable : (s : Text) → elem b'`' s ≡ false → ticks s ≡ 0
unfolding ticks
ticks-quotable [] h = refl
ticks-quotable (c ∷ s) h = ground (arith, ticks-quotable s, h)

abbrev four : Option CountRecord
four = some (record { count = 4; sample = [] })

abbrev count_if : Bool → Result (Option CountRecord)
count_if true = raise query_timeout_error
count_if false = ok four

-- A service that fails at more backticks than the two of a query.
run : Text → ℕ → Result (Option CountRecord)
run query n = count_if (ltb 2 (ticks query))

abbrev bad_label : Text
bad_label = codes "A`) DETACH DELETE n //"

abbrev session : Session
session = record {
  labels = ok (codes "File" ∷ bad_label ∷ []);
  relationship_types = ok (codes "DEFINES" ∷ []);
  run = run;
}

quoted_twice :
    (before name after : Text)
    → ticks (before ++ name ++ after) ≡ ticks before + ticks name + ticks after
quoted_twice before name after =
    ticks-append (before ++ name) after ∙ ap (λ n. n + ticks after) (ticks-append before name)

asked :
    (before name after : Text) (size : ℕ)
    → ticks before ≡ 1
    → ticks after ≡ 1
    → elem b'`' name ≡ false
    → run (before ++ name ++ after) size ≡ ok four
unfolding run
asked before name after size one other h =
    let few : ltb 2 (ticks (before ++ name ++ after)) ≡ false =
      ground (arith, quoted_twice before name after, ticks-quotable name h, one, other) in
    ap count_if few

agrees :
    (name : Text) (size : ℕ)
    → elem b'`' name ≡ false
    → (run (node_query name) size ≡ ok four) × (run (edge_query name) size ≡ ok four)
unfolding node_query edge_query ticks
agrees name size h = (
  asked (codes "MATCH (n:`") name
      (codes "`) RETURN count(n) AS c, collect(distinct keys(n))[0..$sample] AS sample") size refl
      refl h,
  asked (codes "MATCH ()-[r:`") name
      (codes "`]->() RETURN count(r) AS c, collect(distinct keys(r))[0..$sample] AS sample") size
      refl refl h,
)

-- The bad label is skipped.
described_session :
    Neo4j.describe session 10
    ≡ ok (record {
      node_types = record { name = codes "File"; count = 4; property_keys = [] } ∷ [];
      edge_types = record { name = codes "DEFINES"; count = 4; property_keys = [] } ∷ [];
      vertices = 4;
      edges = 4;
      notes = sample_note ∷ live_note ∷ [];
    })
unfolding Neo4j.describe sort_types total run ticks is_ident node_query edge_query
described_session = refl

describe_quotable_example :
    Neo4j.describe session 10 ≡ Neo4j.describe (record session { run = λ query size. ok four }) 10
describe_quotable_example = describe_quotable session (λ query size. ok four) 10 agrees

abbrev introspector : Introspector
introspector = record {
  connect = λ uri. ok tt;
  describe = λ size. ok (record description { vertices = size });
}

-- The size of the samples is brought into its bounds, and the introspector is closed also where the call is late.
answered :
    (describe_graph_schema
        (λ uri. ok (codes "bolt"))
        (λ b. introspector)
        (λ s. false)
        (λ raw. none)
        none
        (codes "bolt://h")
        (negsuc 4)
        (codes "r")
      ≡ (
        connected ∷ described ∷ closed ∷ [],
        ok (record { description = record description { vertices = 10 }; request_id = codes "r" }),
      ))
    × (describe_graph_schema
          (λ uri. ok (codes "bolt"))
          (λ b. introspector)
          (λ s. true)
          (λ raw. none)
          none
          (codes "bolt://h")
          (pos 50)
          (codes "r")
        ≡ (connected ∷ described ∷ closed ∷ [], raise query_timeout_error))
unfolding describe_graph_schema
answered = (refl, refl)
