-- ===== src/Query/Neo4j/Tests.antt =====
-- The connection and the coercion of src/cpp_mcp/graphdb/neo4j_query_executor.py at small inputs.
use cpp_mcp.Base.{
  if◌then◌else◌, ◌≟◌, list_eq, nat_eq, string_eq, Text, [], ◌∷◌, none, some, true, codes, ◌≡◌, refl,
}
use cpp_mcp.Errors.{ok, raise, other, db_unreachable_error}
use cpp_mcp.Ingest.Collect.{text_le}
use cpp_mcp.Introspect.Entries.{sorted_names, insert_name}
use cpp_mcp.Query.Neo4j.Connection.{Package, init, connect, close}
use cpp_mcp.Query.Neo4j.Coerce.{
  Members, find, last_of, found, node_members, Value, Fields, Coerced, node, relationship, path,
  plain, nil, cons, blank, entry, json, word, names, array, object, done, item, empty, member, find,
  set_member, coerce_value, coerce_record,
}

program : Unit {0}
unfolding connect close coerce_value coerce_record set_member find sorted_names insert_name text_le
program = tt

-- A package whose service cannot be reached.
abbrev silent : Package
silent = record { installed = true; open_driver = λ uri. ok tt; verify = λ uri. raise other }

-- The driver of a service that cannot be reached is kept, and released by the first close.
connected :
    (connect silent (codes "bolt://h") init
      ≡ (record init { driver = some (codes "bolt://h") }, raise db_unreachable_error))
    × (close (connect silent (codes "bolt://h") init).0
        ≡ (record { driver = none; closed = true }, codes "bolt://h" ∷ []))
    × (close init ≡ (record { driver = none; closed = true }, []))
unfolding program
connected = (refl, refl, refl)

-- A scalar is sent as it is here.
abbrev sent : Value Text → Coerced Text
sent v = coerce_value (λ s. s) v

abbrev named : Fields Text
named = entry (codes "name") (plain (codes "f")) blank

-- The labels are sorted, and a property named like an end of a relationship takes its place.
coerced :
    (sent (node (codes "B" ∷ codes "A" ∷ []) named)
      ≡ object (
          member
            (codes "_labels")
            (names (codes "A" ∷ codes "B" ∷ []))
            (member (codes "name") (json (codes "f")) empty)))
    × (sent (
          relationship
            (codes "CALLS")
            (some (codes "1"))
            none
            (entry (codes "_start") (plain (codes "9")) blank))
        ≡ object (
            member (codes "_type") (word (some (codes "CALLS"))) (
              member
                (codes "_start")
                (json (codes "9"))
                (member (codes "_end") (word none) empty))))
    × (sent (path (cons (plain (codes "x")) nil) nil)
        ≡ object (
            member
              (codes "_nodes")
              (array (item (json (codes "x")) done))
              (member (codes "_rels") (array done) empty)))
    × (coerce_record (λ s. s) named ≡ member (codes "name") (json (codes "f")) empty)
unfolding program
coerced = (refl, refl, refl, refl)

node_members_example :
    (ms : Members Text) × (sent (node (codes "B" ∷ codes "A" ∷ []) named) ≡ object ms)
    × ((k : Text)
        → find k ms
          ≡ found
              (λ s. s)
              (last_of k named)
              (if codes "_labels" ≟ k
                then some (names (sorted_names (codes "B" ∷ codes "A" ∷ [])))
                else none))
node_members_example = node_members (λ s. s) (codes "B" ∷ codes "A" ∷ []) named
