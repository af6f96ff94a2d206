-- ===== src/Navigation/Parsed/Confined.antt =====
-- Which files the tools of src/cpp_mcp/tools that read a unit ask libclang for.
use cpp_mcp.Base.{
  ℕ, Text, List, Bool, true, elem, list_eq, nat_eq, ◌≡◌, refl, ap, sym, ◌∙◌, arith, inl, inr,
}
use cpp_mcp.Errors.{ExceptionType, Result, ok, raise, ◌>>=◌, Result-cases}
use cpp_mcp.Paths.Guard.{file, validate_path}
use cpp_mcp.Paths.Roots.{Inside, validate_path_safe}
use cpp_mcp.Cache.{TuCache}
use cpp_mcp.Session.{IndexParse, get_or_parse_sync, session_parser, effective_flags}
use cpp_mcp.Tools.GetAst.Confined.{get_or_parse_same}
use cpp_mcp.Navigation.Parsed.{
  Environment, Request, Plan, Parsed, prepare, with_plan, parse_unit, on_unit,
}

module _ {TU : Type 0} (env : Environment TU) (request : Request) where
  prepared_file :
      (plan : Plan)
      → prepare env request ≡ ok plan
      → validate_path env.fs request.file_path request.allowed_roots file ≡ ok plan.file
  unfolding prepare
  prepared_file plan h = ground arith

  prepare_same :
      (parse' : IndexParse TU)
      → prepare (record env { parse = parse' }) request ≡ prepare env request
  unfolding prepare
  prepare_same parse' = refl

  parse_unit_refused :
      (options : ℕ) (c : TuCache TU) (e : ExceptionType)
      → prepare env request ≡ raise e
      → parse_unit env request options c ≡ (c, raise e)
  unfolding parse_unit
  parse_unit_refused options c e h = ground arith

  -- The session's part of a call.
  abbrev session : IndexParse TU → Plan → ℕ → TuCache TU → TuCache TU × Result (TU × Bool)
  session parse plan options c =
      get_or_parse_sync env.host parse env.before env.after plan.file plan.build plan.flags options
        c

  abbrev planned_part : Plan → TuCache TU × Result (TU × Bool) → TuCache TU × Result (Parsed TU)
  planned_part plan (c, parsed) = (c, do unit ← parsed; ok (with_plan plan unit))

  parse_unit_planned :
      (options : ℕ) (c : TuCache TU) (plan : Plan)
      → prepare env request ≡ ok plan
      → parse_unit env request options c ≡ planned_part plan (session env.parse plan options c)
  unfolding parse_unit
  parse_unit_planned options c plan h = ground arith

  session_same :
      (parse' : IndexParse TU) (plan : Plan) (options : ℕ) (c : TuCache TU)
      → ((flags : List Text)
          → env.parse (env.host.realpath plan.file) flags options
            ≡ parse' (env.host.realpath plan.file) flags options)
      → session env.parse plan options c ≡ session parse' plan options c
  unfolding get_or_parse_sync session_parser
  session_same parse' plan options c same =
      get_or_parse_same env.host env.before env.after plan.file plan.build
        (effective_flags plan.flags options) _ _ c (same _)

-- What the tools that read a unit answer, and the cache that they leave, is the same for any two
-- parsers that agree on the files inside the allowed roots: libclang is asked for no other file.
-- `realpath` is taken to leave a real path as it is.
pub on_unit_confined :
    {TU A : Type 0} (env : Environment TU) (parse' : IndexParse TU) (request : Request)
    (options : ℕ) (answer : Parsed TU → Result A) (c : TuCache TU)
    → ((p : Text) → env.host.realpath (env.fs.realpath p) ≡ env.fs.realpath p)
    → ((path root : Text) (flags : List Text)
        → elem root request.allowed_roots ≡ true
        → Inside path root
        → env.parse path flags options ≡ parse' path flags options)
    → on_unit env request options answer c
      ≡ on_unit (record env { parse = parse' }) request options answer c
unfolding on_unit
on_unit_confined {TU = TU} env parse' request options answer c real agree =
    let env' = record env { parse = parse' } in
    let same : parse_unit env request options c ≡ parse_unit env' request options c =
      elim (Result-cases (prepare env request)) [
        | inr (e, refused) ↦
            parse_unit_refused env request options c e refused
            ∙ sym (
                parse_unit_refused env' request options c e
                  (prepare_same env request parse' ∙ refused))
        | inl (plan, planned) ↦
            let accepted =
              validate_path_safe env.fs request.file_path request.allowed_roots file plan.file
                (prepared_file env request plan planned) in
            let (root, member, inside) = accepted.2 in
            let there : env.host.realpath plan.file ≡ plan.file =
              ap env.host.realpath accepted.0 ∙ real request.file_path ∙ sym accepted.0 in
            let parsed =
              session_same env request parse' plan options c
                (λ flags. rw there (agree plan.file root flags member inside)) in
            parse_unit_planned env request options c plan planned
            ∙ ap (planned_part env request plan) parsed
            ∙ sym (
                parse_unit_planned env' request options c plan
                  (prepare_same env request parse' ∙ planned))
      ] in
    ap (λ (s : TuCache TU × Result (Parsed TU)). (s.0, s.1 >>= answer)) same
