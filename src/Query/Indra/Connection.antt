-- ===== src/Query/Indra/Connection.antt =====
-- `connect` and `close` of src/cpp_mcp/graphdb/indradb_query_executor.py. The host of a URI is that of
-- `_strip_scheme` of src/cpp_mcp/graphdb/indradb_driver.py.
use cpp_mcp.Base.{
  Text, Option, none, some, Bool, true, false, not, if◌then◌else◌, ◌≡◌, Bool-cases, inl, inr,
}
use cpp_mcp.Errors.{Result, ok, raise, dependency_missing_error, db_unreachable_error}
use cpp_mcp.Drivers.Indra.{Indradb, strip_scheme}

-- `_client`, by the host it is for, and `_closed`.
pub record IndraDbQueryExecutor : Type 0 where
  pub client : Option Text
  pub closed : Bool

abbrev pub init : IndraDbQueryExecutor
init = record { client = none; closed = false }

-- The client is kept before it is asked for a ping. A port that is no number raises ValueError as it is.
unfoldable pub connect :
    Indradb → Text → IndraDbQueryExecutor → IndraDbQueryExecutor × Result (Unit {0})
unfolding strip_scheme
connect indradb uri e =
    if not indradb.installed
    then (e, raise dependency_missing_error)
    else elim (strip_scheme indradb uri) [
      | raise error ↦ (e, raise error)
      | ok host_port ↦ elim (indradb.open_client host_port) [
        | raise error ↦ (e, raise db_unreachable_error)
        | ok _ ↦ (
          record e { client = some host_port },
          elim (indradb.ping host_port) [ raise error ↦ raise db_unreachable_error | ok _ ↦ ok tt ],
        )
      ]
    ]

-- What the client's own `close` does or raises is suppressed.
unfoldable pub close : IndraDbQueryExecutor → IndraDbQueryExecutor
close e = if e.closed then e else record { client = none; closed = true }

-- After `close` the executor is closed.
closed_after : (e : IndraDbQueryExecutor) → (close e).closed ≡ true
unfolding close
closed_after e = elim (Bool-cases e.closed) [ inl p ↦ simp (p) | inr p ↦ simp (p) ]
