-- ===== src/Query/Neo4j/Connection.antt =====
-- `connect` and `close` of `Neo4jQueryExecutor` (src/cpp_mcp/graphdb/neo4j_query_executor.py), over the driver
-- package, which is a parameter.
use cpp_mcp.Base.{
  Text, List, [], ◌∷◌, Option, none, some, Bool, true, false, not, if◌then◌else◌, ◌≡◌, refl, ap,
  ◌∙◌,
}
use cpp_mcp.Errors.{Result, ok, raise, dependency_missing_error, db_unreachable_error}

-- The package: whether it can be imported, and what `driver(...)` and `verify_connectivity()` do.
pub record Package : Type 0 where
  pub installed : Bool
  pub open_driver : Text → Result (Unit {0})
  pub verify : Text → Result (Unit {0})

-- `_driver`, by its URI, and `_closed`.
pub record Executor : Type 0 where
  pub driver : Option Text
  pub closed : Bool

abbrev pub init : Executor
init = record { driver = none; closed = false }

-- How the two calls of the package end.
abbrev unreachable : Result (Unit {0}) → Result (Unit {0})
unreachable (raise e) = raise db_unreachable_error
unreachable (ok _) = ok tt

-- What opening a driver leaves: it is kept before it is verified.
abbrev opened :
    Text → Result (Unit {0}) → Executor → Result (Unit {0}) → Executor × Result (Unit {0})
opened uri verified x (raise e) = (x, raise db_unreachable_error)
opened uri verified x (ok _) = (record x { driver = some uri }, unreachable verified)

unfoldable pub connect : Package → Text → Executor → Executor × Result (Unit {0})
connect neo4j uri x =
    if not neo4j.installed
    then (x, raise dependency_missing_error)
    else opened uri (neo4j.verify uri) x (neo4j.open_driver uri)

abbrev released : Option Text → List Text
released none = []
released (some uri) = uri ∷ []

abbrev close_at : Bool → Executor → Executor × List Text
close_at true x = (x, [])
close_at false x = (record { driver = none; closed = true }, released x.driver)

-- The executor, and the drivers whose `close` is called; what that raises is suppressed.
unfoldable pub close : Executor → Executor × List Text
close x = close_at x.closed x

close_closed : (x : Executor) → x.closed ≡ true → close x ≡ (x, [])
unfolding close
close_closed x h = ap (λ (b : Bool). close_at b x) h

closed-close_at : (b : Bool) (x : Executor) → x.closed ≡ b → (close_at b x).0.closed ≡ true
closed-close_at true x h = h
closed-close_at false x h = refl

closed-close : (x : Executor) → (close x).0.closed ≡ true
unfolding close
closed-close x = closed-close_at x.closed x refl

-- Closing is idempotent: the second call does nothing.
close_idem : (x : Executor) → close (close x).0 ≡ ((close x).0, [])
close_idem x = close_closed (close x).0 (closed-close x)

connect-opened :
    (neo4j : Package) (uri : Text) (x : Executor)
    → neo4j.installed ≡ true
    → neo4j.open_driver uri ≡ ok tt
    → (connect neo4j uri x).0 ≡ record x { driver = some uri }
unfolding connect
connect-opened neo4j uri x here opens =
    let verified = neo4j.verify uri in
    ap
      (λ (b : Bool).
        (if not b
          then (x, raise dependency_missing_error)
          else opened uri verified x (neo4j.open_driver uri)).0)
      here
    ∙ ap (λ (r : Result (Unit {0})). (opened uri verified x r).0) opens

-- An executor that is closed and connected again is never released: `connect` leaves `_closed` set, and
-- the next `close` keeps the driver.
pub reconnected_is_kept :
    (neo4j : Package) (uri : Text) (x : Executor)
    → neo4j.installed ≡ true
    → neo4j.open_driver uri ≡ ok tt
    → close (connect neo4j uri (close x).0).0 ≡ (record { driver = some uri; closed = true }, [])
reconnected_is_kept neo4j uri x here opens =
    ap (λ (y : Executor). close y) (connect-opened neo4j uri (close x).0 here opens)
    ∙ close_closed (record (close x).0 { driver = some uri }) (closed-close x)
    ∙ ap {B = Executor × List Text} (λ (b : Bool). (record { driver = some uri; closed = b }, []))
        (closed-close x)
