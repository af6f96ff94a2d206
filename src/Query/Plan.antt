-- ===== src/Query/Plan.antt =====
-- `_walk_plan` of src/cpp_mcp/graphdb/neo4j_query_executor.py: the operators of a plan that EXPLAIN gives.
use cpp_mcp.Base.{
  Text, List, [], ◌∷◌, ◌++◌, Option, none, some, Bool, true, false, not, ◌&&◌, ◌||◌, ◌≟◌, ◌==◌,
  list_eq, nat_eq, codes, starts_with, strip, any, elem, if◌then◌else◌, ◌≡◌, refl, sym, ◌∙◌, ap,
  Bool-cases, inl, inr,
}
use cpp_mcp.Errors.{Result, ok, raise, raise_if, ◌>>◌, read_only_violation_error}

-- An operator, and the two arguments of it that are read, if they are there.
pub record Operator : Type 0 where
  pub operator_type : Text
  pub details : Option Text
  pub name : Option Text

mutual
  pub data Plan : Type 0 where
    plan : Operator → Plans → Plan

  pub data Plans : Type 0 where
    nil : Plans
    cons : Plan → Plans → Plans

abbrev write_operator_prefixes : List Text
write_operator_prefixes =
    codes "Create"
    ∷ codes "Merge"
    ∷ codes "Delete"
    ∷ codes "DetachDelete"
    ∷ codes "SetProperty"
    ∷ codes "SetLabels"
    ∷ codes "SetNodeProperty"
    ∷ codes "SetRelationshipProperty"
    ∷ codes "RemoveLabels"
    ∷ codes "RemoveProperty"
    ∷ codes "LoadCsv"
    ∷ codes "Foreach"
    ∷ codes "EmptyResult"
    ∷ []

abbrev read_only_procedures : List Text
read_only_procedures =
    codes "db.labels"
    ∷ codes "db.relationshipTypes"
    ∷ codes "db.propertyKeys"
    ∷ codes "db.schema.visualization"
    ∷ codes "db.schema.nodeTypeProperties"
    ∷ codes "db.schema.relTypeProperties"
    ∷ []

-- `d.get("Details") or d.get("name", "")`: an empty text counts as missing.
unfoldable pub raw_procedure : Operator → Text
raw_procedure op = elim op.details [
  | none ↦ elim op.name [ none ↦ [] | some n ↦ n ]
  | some d ↦ elim d [ [] ↦ elim op.name [ none ↦ [] | some n ↦ n ] | c ∷ s ↦ c ∷ s ]
]

-- `raw.split("(")[0]`
unfoldable pub before_paren : Text → Text
before_paren [] = []
before_paren (c ∷ s) = let rest = before_paren s in if c == b'(' then [] else c ∷ rest

unfoldable pub proc_name : Operator → Text
unfolding raw_procedure before_paren strip
proc_name op = strip (before_paren (raw_procedure op))

abbrev writes : Operator → Bool
writes op = any (λ p. starts_with p op.operator_type) write_operator_prefixes

abbrev calls_unlisted : Operator → Bool
calls_unlisted op =
    (op.operator_type ≟ codes "ProcedureCall") && not (elem (proc_name op) read_only_procedures)

unfoldable mutual
  pub walk_plan : Plan → Result (Unit {0})
  walk_plan (plan op children) = do
    raise_if (writes op) read_only_violation_error
    raise_if (calls_unlisted op) read_only_violation_error
    walk_plans children

  pub walk_plans : Plans → Result (Unit {0})
  walk_plans nil = ok tt
  walk_plans (cons child rest) = do walk_plan child; walk_plans rest

-- The operators of a plan.
unfoldable mutual
  pub operators : Plan → List Operator
  operators (plan op children) = op ∷ operators_of children

  pub operators_of : Plans → List Operator
  operators_of nil = []
  operators_of (cons child rest) = operators child ++ operators_of rest

-- Neither a write nor a call of a procedure that is not on the list.
unfoldable pub is_violation : Operator → Bool
is_violation op = writes op || calls_unlisted op

abbrev verdict : Bool → Result (Unit {0})
verdict bad = if bad then raise read_only_violation_error else ok tt

any-append : (p : Operator → Bool) (xs ys : List Operator) → any p (xs ++ ys) ≡ any p xs || any p ys
any-append p [] ys = refl
any-append p (x ∷ xs) ys = elim (Bool-cases (p x)) [
  | inl e ↦ rw e refl
  | inr e ↦ rw e (any-append p xs ys)
]

verdict_then : (a b : Bool) → verdict a >> verdict b ≡ verdict (a || b)
verdict_then true b = refl
verdict_then false b = refl

guard_twice :
    (a b c : Bool) (r : Result (Unit {0}))
    → r ≡ verdict c
    → raise_if a read_only_violation_error >> (raise_if b read_only_violation_error >> r)
      ≡ verdict ((a || b) || c)
guard_twice true b c r h = refl
guard_twice false true c r h = refl
guard_twice false false c r h = h

mutual
  unfolding walk_plan operators is_violation

  walk_plan-verdict : (p : Plan) → walk_plan p ≡ verdict (any is_violation (operators p))
  walk_plan-verdict (plan op children) =
      guard_twice (writes op) (calls_unlisted op) (any is_violation (operators_of children))
        (walk_plans children) (walk_plans-verdict children)

  walk_plans-verdict : (ps : Plans) → walk_plans ps ≡ verdict (any is_violation (operators_of ps))
  walk_plans-verdict nil = refl
  walk_plans-verdict (cons child rest) =
      rw (walk_plan-verdict child, walk_plans-verdict rest)
        (verdict_then (any is_violation (operators child)) (any is_violation (operators_of rest))
          ∙ ap verdict (sym (any-append is_violation (operators child) (operators_of rest))))

-- A plan is accepted exactly when no operator of it, at any depth, writes or calls a procedure
-- that is not on the list; any other plan is a violation.
pub walk_plan_lem :
    (p : Plan)
    → walk_plan p
      ≡ (if any is_violation (operators p) then raise read_only_violation_error else ok tt)
walk_plan_lem p = walk_plan-verdict p

pub accepted_plan : (p : Plan) → walk_plan p ≡ ok tt → any is_violation (operators p) ≡ false
accepted_plan p h = elim (Bool-cases (any is_violation (operators p))) [
  | inl e ↦ absurd (cc (h, walk_plan_lem p, ap verdict e))
  | inr e ↦ e
]
