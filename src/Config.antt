-- ===== src/Config.antt =====
-- src/cpp_mcp/server/config.py: the configuration that is read from the environment at start-up. What the
-- file system, `int` and `shlex.split` answer is a parameter.
pub mod Loaded
mod Tests
use cpp_mcp.Base.{
  ℕ, zero, suc, ◌<◌, subst, Text, List, [], ◌∷◌, map, keep, Option, none, some, Bool, true, false,
  not, ◌&&◌, ◌||◌, ◌≟◌, list_eq, nat_eq, ℤ, pos, codes, strip, split_on, lower, if◌then◌else◌, All,
  ◌≡◌, ◌≢◌, refl, ap, sym, ◌∙◌, arith, Bool-cases, Option-cases, inl, inr,
}
use cpp_mcp.Errors.{
  ExceptionType, Result, ok, raise, raise_if, ◌>>=◌, ◌>>◌, config_error, value_error, Result-cases,
}
use cpp_mcp.Paths.Text.{isabs}
use cpp_mcp.Cache.{TuCache}
use cpp_mcp.Cache
use cpp_mcp.Cache.Invariant.{IsValid}

-- `int(s)` and `shlex.split(s)` are `none` where they raise ValueError.
pub record Host : Type 0 where
  pub isdir : Text → Bool
  pub to_int : Text → Option ℤ
  pub shlex_split : Text → Option (List Text)

-- `source.get(name)`
abbrev pub Environ : Type 0
Environ = Text → Option Text

abbrev pub get : Environ → Text → Text → Text
get source name default = elim (source name) [ none ↦ default | some v ↦ v ]

pub data Transport : Type 0 where
  stdio http : Transport

pub record ServerConfig : Type 0 where
  pub allowed_roots : List Text
  pub default_flags : List Text
  pub cache_capacity : ℕ
  pub ast_max_nodes : ℕ
  pub ast_max_bytes : ℕ
  pub transport : Transport
  pub http_bind : Text
  pub http_port : ℕ

unfoldable pub positive : Option ℤ → Result ℕ
positive (some (pos (suc n))) = ok (suc n)
positive _ = raise config_error

unfoldable pub parse_positive_int : Host → Text → Result ℕ
unfolding positive
parse_positive_int host value = positive (host.to_int value)

abbrev pub is_empty : Text → Bool
is_empty [] = true
is_empty (c ∷ s) = false

-- The loop over the entries.
unfoldable pub read_roots : Host → List Text → Result (List Text)
unfolding strip
read_roots host [] = ok []
read_roots host (raw ∷ entries) =
    let entry = strip raw in
    let rest = read_roots host entries in
    if is_empty entry
    then rest
    else if not (isabs entry)
    then raise config_error
    else if not (host.isdir entry)
    then raise config_error
    else (rest >>= (λ roots. ok (entry ∷ roots)))

-- `not roots`
abbrev pub is_none : List Text → Bool
is_none [] = true
is_none (r ∷ rs) = false

unfoldable pub allowed_roots_of : Host → Environ → Result (List Text)
unfolding read_roots split_on
allowed_roots_of host source = do
  let raw_roots = strip (get source (codes "CPP_MCP_ALLOWED_ROOTS") [])
  raise_if (is_empty raw_roots) config_error
  roots ← read_roots host (split_on b':' raw_roots)
  raise_if (is_none roots) config_error
  ok roots

-- An exception of `shlex.split` is not caught.
unfoldable pub flags_of : Host → Environ → Result (List Text)
flags_of host source =
    elim (host.shlex_split
      (get source (codes "CPP_MCP_DEFAULT_FLAGS") (codes "-std=c++20 -I. -x c++"))) [
        | none ↦ raise value_error
        | some flags ↦ ok flags
      ]

unfoldable pub transport_of : Environ → Result Transport
transport_of source =
    let name = map lower (strip (get source (codes "CPP_MCP_TRANSPORT") (codes "stdio"))) in
    if name ≟ codes "stdio"
    then ok stdio
    else if name ≟ codes "http"
    then ok http
    else raise config_error

unfoldable pub load_config : Host → Environ → Result ServerConfig
unfolding allowed_roots_of flags_of transport_of parse_positive_int
load_config host source = do
  roots ← allowed_roots_of host source
  flags ← flags_of host source
  capacity ← parse_positive_int host (get source (codes "CPP_MCP_CACHE_CAPACITY") (codes "128"))
  nodes ← parse_positive_int host (get source (codes "CPP_MCP_AST_MAX_NODES") (codes "5000"))
  bytes ← parse_positive_int host (get source (codes "CPP_MCP_AST_MAX_BYTES") (codes "1048576"))
  transport ← transport_of source
  let bind = strip (get source (codes "CPP_MCP_HTTP_BIND") (codes "127.0.0.1"))
  port ← parse_positive_int host (get source (codes "CPP_MCP_HTTP_PORT") (codes "8000"))
  ok (record {
    allowed_roots = roots;
    default_flags = flags;
    cache_capacity = capacity;
    ast_max_nodes = nodes;
    ast_max_bytes = bytes;
    transport = transport;
    http_bind = bind;
    http_port = port;
  })
