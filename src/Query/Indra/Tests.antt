-- ===== src/Query/Indra/Tests.antt =====
-- The IndraDB executor of src/cpp_mcp/graphdb/indradb_query_executor.py on a store of two vertices, and the
-- theorems at it.
use cpp_mcp.Base.{
  map, take, ℕ, ◌<◌, Text, List, [], ◌∷◌, Option, none, some, Bool, true, false, pos, codes,
  decimal, length, min, ◌≡◌, ◌↔◌, inl, refl, All,
}
use cpp_mcp.OrderedDict.{get, set_item}
use cpp_mcp.Errors.{Result, ok, raise, query_parse_error, db_unreachable_error, value_error, other}
use cpp_mcp.Query.Neo4j.{QueryResult}
use cpp_mcp.Query.Indra.Payload.{
  Json, null, flag, number, text, object, Fields, blank, entry, find, keys, scalar_eq, ident_rest,
  is_ident, validate_t, validate_uuid, validate_scalar, require_args, arg,
}
use cpp_mcp.Query.Indra.Fetch.{
  Vertex, Edge, Props, Client, Row, vertex_row, flatten_results, put_vertex_props, index_vertices,
  props_of_vertex, vertex_index, fetch_vertex_props,
}
use cpp_mcp.Query.Indra.Request.{all_vertices_verb, args_of, verb_of, parse_query}
use cpp_mcp.Query.Indra.Rows.{
  Found, property_args, has_property, vertex_rows, specific_rows, run_all_vertices,
  run_vertex_with_type, run_vertex_with_property,
}
use cpp_mcp.Query.Indra.Pipe.{
  direction_of, optional_t, by_vertex_id, resolved, neighbours, run_pipe,
}
use cpp_mcp.Query.Indra.Dispatch.{run_verb, dispatch_query, execute}
use cpp_mcp.Drivers.Indra.{Indradb}
use cpp_mcp.Query.Indra.Connection.{init, connect, close}
use cpp_mcp.Query.Indra.Matching.{Item, item_of, Matching}
use cpp_mcp.Query.Indra.Truncated.{execute_truncated}
use cpp_mcp.Query.Indra.Matches.{HasProperty, run_with_property-HasProperty}

program : Unit {0}
unfolding execute dispatch_query run_verb run_pipe neighbours resolved by_vertex_id optional_t
    direction_of run_all_vertices run_vertex_with_type run_vertex_with_property specific_rows
    vertex_rows property_args has_property parse_query verb_of args_of fetch_vertex_props
    vertex_index index_vertices put_vertex_props props_of_vertex flatten_results require_args
    validate_t validate_uuid validate_scalar is_ident ident_rest scalar_eq keys find arg get
    set_item
program = tt

abbrev a : Vertex
a = record { id = codes "1"; t = codes "Class" }

abbrev b : Vertex
b = record { id = codes "2"; t = codes "File" }

abbrev edge : Edge
edge = record { outbound_id = codes "1"; t = codes "DEFINES"; inbound_id = codes "3" }

abbrev final : Props
final = (codes "is_final", flag true) ∷ []

-- The edge leads to a vertex that no query gives.
abbrev client : Client
client = record {
  has_outbound = true;
  get_vertices = λ q. ok ((a ∷ []) ∷ (b ∷ []) ∷ []);
  get_edges = λ q. ok ((edge ∷ []) ∷ []);
  get_vertex_props = λ q. ok (((a, final) ∷ []) ∷ []);
  get_edge_props = λ q. ok [];
}

abbrev payload : Text → Fields → Option Json
payload verb args =
    some (object (entry (codes "query") (text verb) (entry (codes "args") (object args) blank)))

abbrev run : Text → Fields → ℕ → Result (QueryResult Row)
run verb args row_limit =
    execute (λ s. payload verb args) (λ s. some s) client 0 (codes "{}") row_limit 1

abbrev property : Json → Fields
property value = entry (codes "name") (text (codes "is_final")) (entry (codes "value") value blank)

abbrev result : List Row → Bool → QueryResult Row
result rows truncated = record {
  rows = rows;
  rows_returned = length rows;
  truncated = truncated;
  ms = 0;
}

-- 1 is equal to true, null to a property that is missing; a type name may end in a newline; the missing
-- neighbour makes the pipe look truncated.
answered :
    (run (codes "vertex_with_property_equal") (property (number (pos 1))) 5
      ≡ ok (result (vertex_row (codes "1") (codes "Class") final ∷ []) false))
    × (run (codes "vertex_with_property_equal") (property null) 5
        ≡ ok (result (vertex_row (codes "2") (codes "File") [] ∷ []) false))
    × (run (codes "vertex_with_type") (entry (codes "t") (text (codes "Class\n")) blank) 5
        ≡ ok (result [] false))
    × (run (codes "vertex_with_type") (entry (codes "t") (text (codes "1Class")) blank) 5
        ≡ raise query_parse_error)
    × (run
          (codes "pipe")
          (entry
            (codes "vertex_id")
            (text (codes "1"))
            (entry (codes "direction") (text (codes "outbound")) blank))
          5
        ≡ ok (result [] true))
unfolding program
answered = (refl, refl, refl, refl, refl)

abbrev first : QueryResult Row
first = result (vertex_row (codes "1") (codes "Class") final ∷ []) true

ran : run (codes "all_vertices") blank 1 ≡ ok first
unfolding program
ran = refl

parsed :
    parse_query (λ s. payload (codes "all_vertices") blank) (codes "{}")
    ≡ ok (all_vertices_verb, blank)
unfolding program
parsed = refl

execute_truncated_example :
    (items : List Item) × Matching client blank all_vertices_verb items
    × (map item_of first.rows ≡ take 1 items)
    × (first.rows_returned ≡ min 1 (length items))
    × ((first.truncated ≡ true) ↔ (1 < length items))
execute_truncated_example =
    execute_truncated client (λ s. payload (codes "all_vertices") blank) (λ s. some s) 0 1 1
      (codes "{}") all_vertices_verb blank first parsed refl ran

asked : property_args (property (flag true)) ≡ ok (codes "is_final", flag true)
unfolding program
asked = refl

abbrev found : Found
found = (1, vertex_row (codes "1") (codes "Class") final ∷ [])

matched : run_vertex_with_property client 5 (property (flag true)) ≡ ok found
unfolding program
matched = refl

run_with_property-HasProperty_example : All (HasProperty (codes "is_final") (flag true)) found.1
run_with_property-HasProperty_example =
    run_with_property-HasProperty client 5 (property (flag true)) (codes "is_final") (flag true)
      asked refl found (inl matched)

-- A package whose service answers no ping at a host without a port.
abbrev silent : Indradb
silent = record {
  installed = true;
  hostname = λ uri. ok (some (codes "db"));
  port = λ uri. ok none;
  open_client = λ host_port. ok tt;
  ping = λ host_port. raise other;
}

-- The client of a service that answers no ping is kept, and closing twice is closing once.
connection :
    (connect silent (codes "indradb://db") init
      ≡ (record { client = some (codes "db:27615"); closed = false }, raise db_unreachable_error))
    × (connect (record silent { port = λ uri. raise value_error }) (codes "indradb://db:x") init
        ≡ (init, raise value_error))
    × (close (close (record { client = some (codes "db:27615"); closed = false }))
        ≡ record { client = none; closed = true })
unfolding connect close decimal
connection = (refl, refl, refl)
