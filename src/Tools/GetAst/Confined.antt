-- ===== src/Tools/GetAst/Confined.antt =====
-- What a call of `get_ast` (src/cpp_mcp/tools/get_ast.py) can touch.
use cpp_mcp.Base.{
  ℕ, Text, List, Option, Bool, true, elem, list_eq, nat_eq, ◌≡◌, refl, ap, sym, ◌∙◌, arith, inl,
  inr,
}
use cpp_mcp.Errors.{ExceptionType, Result, ok, raise, ◌>>=◌, Result-cases}
use cpp_mcp.Paths.Guard.{file, validate_path}
use cpp_mcp.Paths.Roots.{Inside, validate_path_safe}
use cpp_mcp.Cache.{TuCache, ParserFn, Stat, get_or_parse}
use cpp_mcp.Cache.Keys.{Host}
use cpp_mcp.Cache.Invariant.{IsValid, get_or_parse-IsValid}
use cpp_mcp.Session.{IndexParse, get_or_parse_sync, session_parser, effective_flags}
use cpp_mcp.Tools.GetAst.{
  TranslationUnit, Environment, Request, Settings, Plan, prepare, respond, do_get_ast,
}

prepared_file :
    (env : Environment) (settings : Settings) (request : Request) (plan : Plan)
    → prepare env settings request ≡ ok plan
    → validate_path env.fs request.file_path settings.allowed_roots file ≡ ok plan.file
unfolding prepare
prepared_file env settings request plan h = ground arith

prepare_same :
    (env : Environment) (parse' : IndexParse TranslationUnit) (settings : Settings)
    (request : Request)
    → prepare (record env { parse = parse' }) settings request ≡ prepare env settings request
unfolding prepare
prepare_same env parse' settings request = refl

do_get_ast_refused :
    (env : Environment) (settings : Settings) (request : Request) (c : TuCache TranslationUnit)
    (e : ExceptionType)
    → prepare env settings request ≡ raise e
    → do_get_ast env settings request c ≡ (c, raise e)
unfolding do_get_ast
do_get_ast_refused env settings request c e h = ground arith

-- The session's part of a call.
abbrev session :
    Environment
    → Plan
    → TuCache TranslationUnit
    → TuCache TranslationUnit × Result (TranslationUnit × Bool)
session env plan c =
    get_or_parse_sync env.host env.parse env.before env.after plan.file plan.build plan.flags 0 c

do_get_ast_planned :
    (env : Environment) (settings : Settings) (request : Request) (c : TuCache TranslationUnit)
    (plan : Plan)
    → prepare env settings request ≡ ok plan
    → do_get_ast env settings request c
      ≡ ((session env plan c).0, (session env plan c).1 >>= respond settings request plan.source)
unfolding do_get_ast
do_get_ast_planned env settings request c plan h = ground arith

pub get_or_parse_same :
    {TU : Type 0} (host : Host) (before after : Stat) (path : Text) (build : Option Text)
    (flags : List Text) (parser parser' : ParserFn TU) (c : TuCache TU)
    → parser (host.realpath path) flags ≡ parser' (host.realpath path) flags
    → get_or_parse host before after path build flags parser c
      ≡ get_or_parse host before after path build flags parser' c
unfolding get_or_parse
get_or_parse_same host before after path build flags parser parser' c h = ground (arith, h)

session_same :
    (env : Environment) (parse' : IndexParse TranslationUnit) (plan : Plan)
    (c : TuCache TranslationUnit)
    → ((flags : List Text)
        → env.parse (env.host.realpath plan.file) flags 0
          ≡ parse' (env.host.realpath plan.file) flags 0)
    → session env plan c ≡ session (record env { parse = parse' }) plan c
unfolding get_or_parse_sync session_parser
session_same env parse' plan c same =
    get_or_parse_same env.host env.before env.after plan.file plan.build
      (effective_flags plan.flags 0) _ _ c (same _)

-- Every call keeps the cache's capacity and its distinct keys, also one that raises.
pub do_get_ast-IsValid :
    (env : Environment) (settings : Settings) (request : Request) (c : TuCache TranslationUnit)
    → IsValid c
    → IsValid (do_get_ast env settings request c).0
do_get_ast-IsValid env settings request c v = elim (Result-cases (prepare env settings request)) [
  | inr (e, refused) ↦ rw (do_get_ast_refused env settings request c e refused) v
  | inl (plan, planned) ↦ rw (do_get_ast_planned env settings request c plan planned) (
      unfold get_or_parse_sync in
      get_or_parse-IsValid env.host env.before env.after plan.file plan.build
        (effective_flags plan.flags 0) (session_parser env.parse 0) c v)
]

-- libclang is asked only for files inside the allowed roots: a call has the same answer and
-- leaves the same cache for any two parsers that agree on those files. `realpath` is taken to
-- leave a real path as it is.
pub parses_only_allowed_files :
    (env : Environment) (parse' : IndexParse TranslationUnit) (settings : Settings)
    (request : Request) (c : TuCache TranslationUnit)
    → ((p : Text) → env.host.realpath (env.fs.realpath p) ≡ env.fs.realpath p)
    → ((path root : Text) (flags : List Text) (options : ℕ)
        → elem root settings.allowed_roots ≡ true
        → Inside path root
        → env.parse path flags options ≡ parse' path flags options)
    → do_get_ast env settings request c
      ≡ do_get_ast (record env { parse = parse' }) settings request c
parses_only_allowed_files env parse' settings request c real agree =
    let env' = record env { parse = parse' } in
    elim (Result-cases (prepare env settings request)) [
      | inr (e, refused) ↦
          do_get_ast_refused env settings request c e refused
          ∙ sym (
              do_get_ast_refused env' settings request c e
                (prepare_same env parse' settings request ∙ refused))
      | inl (plan, planned) ↦
          let accepted =
            validate_path_safe env.fs request.file_path settings.allowed_roots file plan.file
              (prepared_file env settings request plan planned) in
          let (root, member, inside) = accepted.2 in
          let there : env.host.realpath plan.file ≡ plan.file =
            ap env.host.realpath accepted.0 ∙ real request.file_path ∙ sym accepted.0 in
          let same =
            session_same env parse' plan c
              (λ flags. rw there (agree plan.file root flags 0 member inside)) in
          do_get_ast_planned env settings request c plan planned
          ∙ ap (λ s. (s.0, s.1 >>= respond settings request plan.source)) same
          ∙ sym (
              do_get_ast_planned env' settings request c plan
                (prepare_same env parse' settings request ∙ planned))
    ]
