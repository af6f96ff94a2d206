-- ===== src/Navigation/References/Bounds.antt =====
-- How many references an answer of src/cpp_mcp/tools/get_references.py holds.
use cpp_mcp.Base.{
  ℕ, ◌+◌, ◌≤◌, ◌<◌, Text, List, length, take, length-take, true, ℤ, ◌≡◌, ◌↔◌, refl, subst, arith,
}
use cpp_mcp.Errors.{ok, >>=-eq-ok}
use cpp_mcp.Positions.{cursor_at}
use cpp_mcp.Cache.{TuCache}
use cpp_mcp.Navigation.Parsed.{Environment, Request, Parsed, parse_unit, answered_on_unit}
use cpp_mcp.Navigation.References.{
  Reference, Files, SourceUnit, Answer, max_references, limited, collect_references, references_of,
  do_get_references,
}

-- The references are the first of all, as many as the limit allows; the count of the omitted ones
-- makes up the rest, and `truncated` says whether there are any.
pub record Limits (limit : ℕ) (answer : Answer) (all_refs : List Reference) : Type 0 where
  pub first : answer.references ≡ take limit all_refs
  pub within : length answer.references ≤ limit
  pub counted : length answer.references + answer.omitted_count ≡ length all_refs
  pub marked : (answer.truncated ≡ true) ↔ (0 < answer.omitted_count)

limited-Limits :
    (limit : ℕ) (target : Text) (all_refs : List Reference) (unit : Parsed SourceUnit)
    → Limits limit (limited limit target all_refs unit) all_refs
unfolding limited
limited-Limits limit target all_refs unit =
    let n = length-take limit all_refs in
    record {
      first = refl;
      within = omega (arith, n);
      counted = omega (arith, n);
      marked = ground arith;
    }

-- An answer of get_references is about the symbol that `cursor_at` finds in the parsed unit, holds at
-- most 1000 of its references, the first ones, and says how many are left out and whether any are.
pub do_get_references_limited :
    (env : Environment SourceUnit) (files : Files) (request : Request) (line col : ℤ)
    (c : TuCache SourceUnit) (answer : Answer)
    → (do_get_references env files request line col c).1 ≡ ok answer
    → (unit : Parsed SourceUnit) × ((parse_unit env request 0 c).1 ≡ ok unit)
      × (cursor_at unit.tu.view (files.first unit.file) (files.second unit.file) line col
          ≡ ok answer.usr)
      × Limits max_references answer (collect_references files.read_text unit.tu.tree answer.usr)
unfolding do_get_references references_of limited
do_get_references_limited env files request line col c answer h =
    let (unit, parsed, answered) =
      answered_on_unit env request 0 (references_of files line col) c h in
    let view = unit.tu.view in
    let (target, found, limits) =
      >>=-eq-ok (cursor_at view (files.first unit.file) (files.second unit.file) line col) _
        answered in
    let all_refs = collect_references files.read_text unit.tu.tree target in
    let same : limited max_references target all_refs unit ≡ answer = cc limits in
    let (named, within) =
      subst
        (λ (a : Answer).
          (cursor_at view (files.first unit.file) (files.second unit.file) line col ≡ ok a.usr)
          × Limits max_references a (collect_references files.read_text unit.tu.tree a.usr))
        same (found, limited-Limits max_references target all_refs unit) in
    (unit, parsed, named, within)
