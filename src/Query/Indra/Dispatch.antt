-- ===== src/Query/Indra/Dispatch.antt =====
-- `_dispatch_query` and `execute` of src/cpp_mcp/graphdb/indradb_query_executor.py.
use cpp_mcp.Base.{ℕ, Text, Option, list_eq, nat_eq, length, ltb}
use cpp_mcp.Errors.{Result, ok, ◌>>=◌}
use cpp_mcp.Query.Neo4j.{QueryResult}
use cpp_mcp.Query.Indra.Payload.{Json, Fields}
use cpp_mcp.Query.Indra.Fetch.{Client, Row}
use cpp_mcp.Query.Indra.Request.{
  Verb, all_vertices_verb, all_edges_verb, vertex_with_type, edge_with_type,
  vertex_with_property_equal, edge_with_property_equal, pipe, parse_query,
}
use cpp_mcp.Query.Indra.Rows.{
  Found, run_all_vertices, run_all_edges, run_vertex_with_type, run_edge_with_type,
  run_vertex_with_property, run_edge_with_property,
}
use cpp_mcp.Query.Indra.Pipe.{run_pipe}

module _ (client : Client) (row_limit : ℕ) where
  unfoldable pub run_verb : (Text → Option Text) → Verb → Fields → Result Found
  unfolding run_all_vertices run_all_edges run_vertex_with_type run_edge_with_type
      run_vertex_with_property run_edge_with_property run_pipe
  run_verb parse_uuid all_vertices_verb args = run_all_vertices client row_limit args
  run_verb parse_uuid all_edges_verb args = run_all_edges client row_limit args
  run_verb parse_uuid vertex_with_type args = run_vertex_with_type client row_limit args
  run_verb parse_uuid edge_with_type args = run_edge_with_type client row_limit args
  run_verb parse_uuid vertex_with_property_equal args =
      run_vertex_with_property client row_limit args
  run_verb parse_uuid edge_with_property_equal args = run_edge_with_property client row_limit args
  run_verb parse_uuid pipe args = run_pipe client row_limit parse_uuid args

  unfoldable pub dispatch_query : (Text → Option Json) → (Text → Option Text) → Text → Result Found
  unfolding parse_query run_verb
  dispatch_query loads parse_uuid query = do
    (verb, args) ← parse_query loads query
    run_verb parse_uuid verb args

-- The parameters and the time limit are not used.
unfoldable pub execute :
    (Text → Option Json)
    → (Text → Option Text)
    → Client
    → ℕ
    → Text
    → ℕ
    → ℕ
    → Result (QueryResult Row)
unfolding dispatch_query
execute loads parse_uuid client ms query row_limit timeout_s = do
  (total, rows) ← dispatch_query client row_limit loads parse_uuid query
  ok (record {
    rows = rows;
    rows_returned = length rows;
    truncated = ltb (length rows) total;
    ms = ms;
  })
