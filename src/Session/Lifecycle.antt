-- ===== src/Session/Lifecycle.antt =====
-- `ClangSession` of src/cpp_mcp/core/clang_session.py around the cache: libclang's index, which is made at the
-- first parse, and the worker, which `aclose` stops. The worker runs one call at a time, so that the calls
-- are a sequence.
use cpp_mcp.Base.{
  ℕ, Text, List, Option, none, some, Bool, true, false, ℤ, if◌then◌else◌, ◌≡◌, refl, ap, ◌∙◌,
}
use cpp_mcp.Errors.{Result, ok, raise, ◌>>=◌, other}
use cpp_mcp.Cache
use cpp_mcp.Cache.{TuCache, Stat, check, clear}
use cpp_mcp.Cache.Keys.{Host, make_key}
use cpp_mcp.Session.{IndexParse, effective_flags, get_or_parse_sync}

-- What the session asks of libclang: `Index.create()`, and the `parse` of an index.
pub record Libclang (TU : Type 0) : Type 0 where
  pub create : Result (Unit {0})
  pub parse : IndexParse TU

-- Whether `_index` is made, the cache, and whether the worker takes calls.
pub record ClangSession (TU : Type 0) : Type 0 where
  pub index : Bool
  pub cache : TuCache TU
  pub running : Bool

abbrev created : Result (Unit {0}) → Bool × Result (Unit {0})
created (raise e) = (false, raise e)
created (ok _) = (true, ok tt)

module _ {TU : Type 0} where
  unfoldable pub init : ℤ → Result (ClangSession TU)
  unfolding Cache.init
  init capacity = do
    cache ← Cache.init capacity
    ok (record { index = false; cache = cache; running = true })

  unfoldable pub get_or_create_index : Libclang TU → Bool → Bool × Result (Unit {0})
  get_or_create_index libclang true = (true, ok tt)
  get_or_create_index libclang false = created libclang.create

  -- The default of `options` is 0, so that the two calls of `index.parse` are one.
  unfoldable pub parse_sync : Libclang TU → Bool → IndexParse TU
  unfolding get_or_create_index
  parse_sync libclang index path flags options =
      (get_or_create_index libclang index).1 >>= (λ _. libclang.parse path flags options)

  -- The index after a lookup: it is asked for only where the cache has no answer.
  unfoldable pub index_after :
      Libclang TU → Host → Stat → Text → Option Text → List Text → ClangSession TU → Bool
  unfolding get_or_create_index
  index_after libclang host before file_path build_path flags s =
      let key = make_key host file_path build_path flags in
      elim (check key (before (host.realpath file_path)) s.cache).1 [
        | some tu ↦ s.index
        | none ↦ (get_or_create_index libclang s.index).0
      ]

  -- A worker that is shut down takes no call.
  unfoldable pub parse :
      Libclang TU
      → Host
      → Stat
      → Stat
      → Text
      → Option Text
      → List Text
      → ℕ
      → ClangSession TU
      → ClangSession TU × Result (TU × Bool)
  unfolding parse_sync index_after effective_flags
  parse libclang host before after file_path build_path flags options s =
      if s.running
      then (let (cache, answer) =
            get_or_parse_sync host (parse_sync libclang s.index) before after file_path build_path
              flags options s.cache in
          (
            record {
              index =
                  index_after libclang host before file_path build_path
                    (effective_flags flags options) s;
              cache = cache;
              running = true;
            },
            answer,
          ))
      else (s, raise other)

  unfoldable pub shutdown : ClangSession TU → ClangSession TU
  shutdown s = record s { running = false }

  unfoldable pub aclose : ClangSession TU → ClangSession TU
  unfolding shutdown clear
  aclose s = record (shutdown s) { cache = clear s.cache }

  parse_sync_lem :
      (libclang : Libclang TU) (index : Bool)
      → libclang.create ≡ ok tt
      → parse_sync libclang index ≡ libclang.parse
  unfolding parse_sync
  parse_sync_lem libclang true h = refl
  parse_sync_lem libclang false h =
      ap (λ r. λ path flags options. (created r).1 >>= (λ _. libclang.parse path flags options)) h

  -- With a libclang that can be loaded, a session that runs answers as the cache in front of libclang
  -- does, whether the index is there yet or not.
  pub parse_lem :
      (libclang : Libclang TU) (host : Host) (before after : Stat) (file_path : Text)
      (build_path : Option Text) (flags : List Text) (options : ℕ) (s : ClangSession TU)
      → libclang.create ≡ ok tt
      → s.running ≡ true
      → ((parse libclang host before after file_path build_path flags options s).0.cache
          ≡ (get_or_parse_sync host libclang.parse before after file_path build_path flags options
              s.cache).0)
        × ((parse libclang host before after file_path build_path flags options s).1
            ≡ (get_or_parse_sync host libclang.parse before after file_path build_path flags options
                s.cache).1)
  unfolding parse
  parse_lem libclang host before after file_path build_path flags options s loads on =
      let started =
        get_or_parse_sync host (parse_sync libclang s.index) before after file_path build_path flags
          options s.cache in
      let next : ClangSession TU = record {
        index =
            index_after libclang host before file_path build_path (effective_flags flags options) s;
        cache = started.0;
        running = true;
      } in
      let chosen =
        ap {B = ClangSession TU × Result (TU × Bool)}
          (λ (b : Bool). if b then (next, started.1) else (s, raise other)) on in
      let same =
        ap (λ p. get_or_parse_sync host p before after file_path build_path flags options s.cache)
          (parse_sync_lem libclang s.index loads) in
      (ap (λ r. r.0.cache) chosen ∙ ap (λ r. r.0) same, ap (λ r. r.1) chosen ∙ ap (λ r. r.1) same)
