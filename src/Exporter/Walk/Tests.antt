-- ===== src/Exporter/Walk/Tests.antt =====
-- The walk of src/cpp_mcp/graphdb/exporter.py on one unit, and the theorems at it.
use cpp_mcp.Base.{none, [], ◌∷◌, any, map, length, false, ◌≡◌, refl, All}
use cpp_mcp.OrderedDict.{get}
use cpp_mcp.Exporter.Records.{
  EdgeRecord, usrs, defines, inherits, references, member_of, returns, has_param, of_type,
  points_to,
}
use cpp_mcp.Exporter.Walk.{is_calls, walk_cursor, first_graph, extract_nodes_and_edges}
use cpp_mcp.Exporter.Walk.Closed.{Distinct, IsLinked}
use cpp_mcp.Exporter.Walk.Result.{
  extract_nodes_and_edges-drop_doubled, extract_nodes_and_edges-IsLinked,
}
use cpp_mcp.Exporter.Walk.Sample.{unit, root, walked}

-- The class, its method, the parameter and the two types, and their edges. The call gives none.
extracted :
    (map (λ (e : EdgeRecord). e.edge_type) (extract_nodes_and_edges unit root).1
      ≡ defines ∷ inherits ∷ member_of ∷ returns ∷ points_to ∷ has_param ∷ of_type ∷ references
        ∷ [])
    × (length (extract_nodes_and_edges unit root).0 ≡ 6)
unfolding walked get
extracted = (refl, refl)

extract_nodes_and_edges-IsLinked_example :
    Distinct (usrs (extract_nodes_and_edges unit root).0)
    × All
        (IsLinked (usrs (extract_nodes_and_edges unit root).0))
        (extract_nodes_and_edges unit root).1
extract_nodes_and_edges-IsLinked_example = extract_nodes_and_edges-IsLinked unit root

extract_nodes_and_edges-drop_doubled_example :
    (any (λ (e : EdgeRecord). is_calls e.edge_type) (extract_nodes_and_edges unit root).1 ≡ false)
    × ((extract_nodes_and_edges unit root).1
        ≡ (walk_cursor unit root none none (first_graph unit)).edges)
extract_nodes_and_edges-drop_doubled_example = extract_nodes_and_edges-drop_doubled unit root
