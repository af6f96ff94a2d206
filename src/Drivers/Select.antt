-- ===== src/Drivers/Select.antt =====
-- `select_driver` of src/cpp_mcp/graphdb/__init__.py. What `urlparse` answers is a parameter.
use cpp_mcp.Base.{
  Text, List, [], ◌∷◌, Bool, true, false, not, ◌||◌, list_eq, nat_eq, codes, contains, elem,
  if◌then◌else◌,
}
use cpp_mcp.Errors.{Result, ok, raise, ◌>>=◌, invalid_argument_error}
use cpp_mcp.Query.Tool.{Backend, neo4j, indradb}

abbrev neo4j_schemes : List Text
neo4j_schemes =
    codes "bolt"
    ∷ codes "bolt+s"
    ∷ codes "bolt+ssc"
    ∷ codes "neo4j"
    ∷ codes "neo4j+s"
    ∷ codes "neo4j+ssc"
    ∷ []

abbrev indradb_schemes : List Text
indradb_schemes = codes "indradb" ∷ codes "grpc" ∷ codes "indradb+grpc" ∷ []

abbrev is_empty : Text → Bool
is_empty [] = true
is_empty (c ∷ s) = false

abbrev pub driver_of_scheme : Text → Result Backend
driver_of_scheme scheme =
    if elem scheme neo4j_schemes
    then ok neo4j
    else if elem scheme indradb_schemes
    then ok indradb
    else raise invalid_argument_error

unfoldable pub select_driver : (Text → Result Text) → Text → Result Backend
unfolding contains
select_driver scheme_of db_uri =
    if is_empty db_uri || not (contains (codes "://") db_uri)
    then raise invalid_argument_error
    else (scheme_of db_uri >>= driver_of_scheme)
