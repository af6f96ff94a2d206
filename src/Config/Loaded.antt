-- ===== src/Config/Loaded.antt =====
-- What a configuration that loads satisfies (src/cpp_mcp/server/config.py).
use cpp_mcp.Base.{
  ℕ, zero, suc, ◌<◌, subst, Text, List, [], ◌∷◌, map, keep, Option, none, some, true, false, not,
  list_eq, nat_eq, ℤ, pos, codes, strip, split_on, All, ◌≡◌, ◌≢◌, refl, ap, sym, ◌∙◌, arith,
  Bool-cases, inl, inr,
}
use cpp_mcp.Errors.{ok, Result-cases}
use cpp_mcp.Paths.Text.{isabs}
use cpp_mcp.Cache.{TuCache}
use cpp_mcp.Cache
use cpp_mcp.Cache.Invariant.{IsValid}
use cpp_mcp.Config.{
  Host, Environ, get, ServerConfig, positive, parse_positive_int, is_empty, read_roots, is_none,
  allowed_roots_of, flags_of, transport_of, load_config,
}

-- The entries of the variable that are no white space, without what surrounds them.
abbrev pub entries : Text → List Text
entries raw = keep (λ e. not (is_empty e)) (map strip (split_on b':' (strip raw)))

abbrev IsRoot : Host → Text → Type 0
IsRoot host r = (isabs r ≡ true) × (host.isdir r ≡ true)

abbrev named : List Text → List Text
named raws = keep (λ e. not (is_empty e)) (map strip raws)

read_roots-cons :
    (host : Host) (raw : Text) (raws roots : List Text)
    → ((rs : List Text) → read_roots host raws ≡ ok rs → (rs ≡ named raws) × All (IsRoot host) rs)
    → read_roots host (raw ∷ raws) ≡ ok roots
    → (roots ≡ named (raw ∷ raws)) × All (IsRoot host) roots
unfolding read_roots
read_roots-cons host raw raws roots ih h = elim (Bool-cases (is_empty (strip raw))) [
  | inl blank ↦ rw blank (ih roots (rw blank at h))
  | inr there ↦ elim (Result-cases (read_roots host raws)) [
    | inr (e, failed) ↦ absurd (ground (arith, there, failed, h))
    | inl (rs, rest) ↦
        let (same, all) = ih rs rest in
        let whole : roots ≡ strip raw ∷ rs = ground (arith, there, rest, h) in
        let root : IsRoot host (strip raw) = ground (arith, there, rest, h) in
        rw (whole, there) (ap (λ l. strip raw ∷ l) same, (root, all))
  ]
]

read_roots-named :
    (host : Host) (raws roots : List Text)
    → read_roots host raws ≡ ok roots
    → (roots ≡ named raws) × All (IsRoot host) roots
read_roots-named host [] roots h = unfold read_roots in ground (arith, h)
read_roots-named host (raw ∷ raws) roots h =
    read_roots-cons host raw raws roots (read_roots-named host raws) h

positive_lem : (o : Option ℤ) (n : ℕ) → positive o ≡ ok n → 0 < n
unfolding positive
positive_lem (some (pos (suc m))) n h = ground (arith, h)
positive_lem (some (pos ℕ.zero)) n h = absurd (cc h)
positive_lem (some (ℤ.negsuc m)) n h = absurd (cc h)
positive_lem none n h = absurd (cc h)

allowed_roots_of-named :
    (host : Host) (source : Environ) (roots : List Text)
    → allowed_roots_of host source ≡ ok roots
    → (roots ≡ entries (get source (codes "CPP_MCP_ALLOWED_ROOTS") []))
      × (roots ≢ [])
      × All (IsRoot host) roots
unfolding allowed_roots_of
allowed_roots_of-named host source roots h =
    let raw = strip (get source (codes "CPP_MCP_ALLOWED_ROOTS") []) in
    elim (Result-cases (read_roots host (split_on b':' raw))) [
      | inr (e, failed) ↦ absurd (ground (arith, failed, h))
      | inl (found, read) ↦
          let there : is_none found ≡ false = ground (arith, read, h) in
          let same : found ≡ roots = ground (arith, read, h) in
          let (named_ones, all) = read_roots-named host (split_on b':' raw) found read in
          (
            sym same ∙ named_ones,
            λ none_left. absurd (cc (there, ap is_none (same ∙ none_left))),
            subst (All (IsRoot host)) same all,
          )
    ]

parsed_positive :
    (host : Host) (value : Text) (n : ℕ) → parse_positive_int host value ≡ ok n → 0 < n
unfolding parse_positive_int
parsed_positive host value n h = positive_lem (host.to_int value) n h

cache_accepts :
    (n : ℕ) → 0 < n → (cache : TuCache (Unit {0})) × (Cache.init (pos n) ≡ ok cache) × IsValid cache
unfolding Cache.init
cache_accepts zero h = absurd (omega (arith, h))
cache_accepts (suc n) h = (
  record { capacity = suc n; store = []; hits = 0; misses = 0; evictions = 0 },
  refl,
  record { positive = omega arith; bounded = omega arith; distinct = tt },
)

-- A configuration that loads has at least one allowed root, all of them absolute and directories,
-- and exactly the entries that are named; its limits, capacity and port are positive, so that the
-- constructor of the cache does not refuse the capacity.
pub load_config_safe :
    (host : Host) (source : Environ) (c : ServerConfig)
    → load_config host source ≡ ok c
    → (c.allowed_roots ≡ entries (get source (codes "CPP_MCP_ALLOWED_ROOTS") []))
      × (c.allowed_roots ≢ [])
      × All (λ r. (isabs r ≡ true) × (host.isdir r ≡ true)) c.allowed_roots
      × (0 < c.ast_max_nodes)
      × (0 < c.ast_max_bytes)
      × (0 < c.http_port)
      × ((cache : TuCache (Unit {0})) × (Cache.init (pos c.cache_capacity) ≡ ok cache)
          × IsValid cache)
unfolding load_config
load_config_safe host source c h = elim (Result-cases (allowed_roots_of host source)) [
  | inr (e, r) ↦ absurd (ground (arith, r, h))
  | inl (roots, r) ↦ elim (Result-cases (flags_of host source)) [
    | inr (e, f) ↦ absurd (ground (arith, r, f, h))
    | inl (flags, f) ↦
        elim (Result-cases
          (parse_positive_int host (get source (codes "CPP_MCP_CACHE_CAPACITY") (codes "128")))) [
            | inr (e, p) ↦ absurd (ground (arith, r, f, p, h))
            | inl (capacity, p) ↦
                elim (Result-cases (
                  parse_positive_int host
                    (get source (codes "CPP_MCP_AST_MAX_NODES") (codes "5000")))) [
                      | inr (e, n) ↦ absurd (ground (arith, r, f, p, n, h))
                      | inl (nodes, n) ↦
                          elim (Result-cases (
                            parse_positive_int host
                              (get source (codes "CPP_MCP_AST_MAX_BYTES") (codes "1048576")))) [
                                | inr (e, b) ↦ absurd (ground (arith, r, f, p, n, b, h))
                                | inl (bytes, b) ↦ elim (Result-cases (transport_of source)) [
                                  | inr (e, w) ↦ absurd (ground (arith, r, f, p, n, b, w, h))
                                  | inl (way, w) ↦
                                      elim (Result-cases (
                                        parse_positive_int host (
                                          get source (codes "CPP_MCP_HTTP_PORT") (codes "8000")))) [
                                            | inr (e, q) ↦
                                                absurd (ground (arith, r, f, p, n, b, w, q, h))
                                            | inl (port, q) ↦
                                                let same : roots ≡ c.allowed_roots =
                                                  ground (arith, r, f, p, n, b, w, q, h) in
                                                let same_capacity : capacity ≡ c.cache_capacity =
                                                  ground (arith, r, f, p, n, b, w, q, h) in
                                                let same_nodes : nodes ≡ c.ast_max_nodes =
                                                  ground (arith, r, f, p, n, b, w, q, h) in
                                                let same_bytes : bytes ≡ c.ast_max_bytes =
                                                  ground (arith, r, f, p, n, b, w, q, h) in
                                                let same_port : port ≡ c.http_port =
                                                  ground (arith, r, f, p, n, b, w, q, h) in
                                                let (named_ones, some_root, all) =
                                                  allowed_roots_of-named host source roots r in
                                                let above_zero = λ (k : ℕ). 0 < k in
                                                (
                                                  sym same ∙ named_ones,
                                                  λ e. some_root (same ∙ e),
                                                  subst (All (IsRoot host)) same all,
                                                  subst above_zero same_nodes
                                                      (parsed_positive host _ nodes n),
                                                  subst above_zero same_bytes
                                                      (parsed_positive host _ bytes b),
                                                  subst above_zero same_port
                                                      (parsed_positive host _ port q),
                                                  cache_accepts c.cache_capacity (
                                                      subst above_zero same_capacity
                                                        (parsed_positive host _ capacity p)),
                                                )
                                          ]
                                ]
                              ]
                    ]
          ]
  ]
]
