-- ===== src/Introspect/Neo4j.antt =====
-- `Neo4jSchemaIntrospector` of src/cpp_mcp/graphdb/schema_introspector.py, over a session whose answers are
-- parameters, and the driver package.
pub mod Safe
use cpp_mcp.Base.{ℕ, Text, List, [], ◌∷◌, ◌++◌, codes, Option, none, some, Bool, not, if◌then◌else◌}
use cpp_mcp.Errors.{Result, ok, raise, ◌>>=◌, db_unreachable_error, dependency_missing_error}
use cpp_mcp.Query.Neo4j.Connection.{Package}
use cpp_mcp.Query.Indra.Payload.{is_ident}
use cpp_mcp.Introspect.Entries.{Entry, total, update, sort_types, sorted_names}
use cpp_mcp.Introspect.Indra.{Description, Note, sample_note, live_note}

-- An item of the sample: a list of keys, or what `str` makes of another value.
pub data Sampled : Type 0 where
  key_list : List Text → Sampled
  single : Text → Sampled

-- The record of a count, with `rec["sample"] or []`.
pub record CountRecord : Type 0 where
  pub count : ℕ
  pub sample : List Sampled

-- What the session answers: the labels, the relationship types, and the single record of a counting
-- query at a size of the sample, which may be None.
pub record Session : Type 0 where
  pub labels : Result (List Text)
  pub relationship_types : Result (List Text)
  pub run : Text → ℕ → Result (Option CountRecord)

unfoldable pub node_query : Text → Text
node_query label =
    codes "MATCH (n:`"
    ++ label
    ++ codes "`) RETURN count(n) AS c, collect(distinct keys(n))[0..$sample] AS sample"

unfoldable pub edge_query : Text → Text
edge_query rel_type =
    codes "MATCH ()-[r:`"
    ++ rel_type
    ++ codes "`]->() RETURN count(r) AS c, collect(distinct keys(r))[0..$sample] AS sample"

unfoldable pub sampled_keys : List Sampled → List Text → List Text
unfolding update
sampled_keys [] keys = keys
sampled_keys (key_list ks ∷ sample) keys = sampled_keys sample (update keys ks)
sampled_keys (single k ∷ sample) keys = sampled_keys sample (update keys (k ∷ []))

-- A type without a record is left out.
abbrev with_record : Text → Option CountRecord → List Entry → List Entry
with_record name none entries = entries
with_record name (some r) entries =
    record { name = name; count = r.count; property_keys = sorted_names (sampled_keys r.sample []) }
    ∷ entries

-- The loop of `_describe_nodes` and `_describe_edges`: a name that is not safe is skipped.
unfoldable pub describe_types :
    (Text → Text) → (Text → ℕ → Result (Option CountRecord)) → ℕ → List Text → Result (List Entry)
unfolding sampled_keys sorted_names
describe_types query_of run sample_size [] = ok []
describe_types query_of run sample_size (name ∷ names) =
    let rest = describe_types query_of run sample_size names in
    if not (is_ident name) then rest else do
      found ← run (query_of name) sample_size
      entries ← rest
      ok (with_record name found entries)

-- From the two lists of names, by what describes them.
abbrev pub describe_with :
    Result (List Text)
    → Result (List Text)
    → (List Text → Result (List Entry))
    → (List Text → Result (List Entry))
    → Result Description
describe_with all_labels all_types nodes_of edges_of = do
  labels ← all_labels
  node_types ← nodes_of labels
  rel_types ← all_types
  edge_types ← edges_of rel_types
  ok (record {
    node_types = sort_types node_types;
    edge_types = sort_types edge_types;
    vertices = total node_types;
    edges = total edge_types;
    notes = sample_note ∷ live_note ∷ [];
  })

unfoldable pub describe : Session → ℕ → Result Description
unfolding describe_types
describe session sample_size =
    describe_with session.labels session.relationship_types
      (describe_types node_query session.run sample_size)
      (describe_types edge_query session.run sample_size)

-- `_driver`, by its URI; it is kept only if it is verified.
unfoldable pub connect : Package → Text → Option Text → Option Text × Result (Unit {0})
connect neo4j uri driver =
    if not neo4j.installed
    then (driver, raise dependency_missing_error)
    else elim (neo4j.open_driver uri >>= λ _. neo4j.verify uri) [
      | raise e ↦ (driver, raise db_unreachable_error)
      | ok _ ↦ (some uri, ok tt)
    ]

unfoldable pub describe_on : (Text → Result Session) → Option Text → ℕ → Result Description
unfolding describe
describe_on session_of none sample_size = raise db_unreachable_error
describe_on session_of (some uri) sample_size = do
  session ← session_of uri
  describe session sample_size

-- What the driver's own `close` raises is suppressed.
unfoldable pub close : Option Text → Option Text
close driver = none
