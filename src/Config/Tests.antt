-- ===== src/Config/Tests.antt =====
-- A run of `load_config` of src/cpp_mcp/server/config.py, and the theorem at it.
use cpp_mcp.Base.{
  ◌<◌, Text, [], ◌∷◌, none, some, true, ◌≟◌, list_eq, nat_eq, pos, codes, strip, lstrip, rstrip,
  split_on, is_space, if◌then◌else◌, All, ◌≡◌, ◌≢◌, refl,
}
use cpp_mcp.Errors.{ok, raise, config_error}
use cpp_mcp.Paths.Text.{isabs}
use cpp_mcp.Cache
use cpp_mcp.Cache.{TuCache}
use cpp_mcp.Cache.Invariant.{IsValid}
use cpp_mcp.Config.{
  Host, Environ, get, ServerConfig, stdio, positive, parse_positive_int, read_roots,
  allowed_roots_of, flags_of, transport_of, load_config,
}
use cpp_mcp.Config.Loaded.{entries, load_config_safe}

program : Unit {0}
unfolding strip lstrip rstrip is_space split_on positive parse_positive_int read_roots
    allowed_roots_of flags_of transport_of load_config
program = tt

-- Every number reads as 7; only "/src" and "/lib" are directories.
abbrev host : Host
host = record {
  isdir = λ p. if p ≟ codes "/src" then true else (p ≟ codes "/lib");
  to_int = λ s. some (pos 7);
  shlex_split = λ s. some (s ∷ []);
}

-- Only the roots are set.
abbrev source : Text → Environ
source roots name = if name ≟ codes "CPP_MCP_ALLOWED_ROOTS" then some roots else none

abbrev roots : Text
roots = codes " /src : :/lib"

abbrev config : ServerConfig
config = record {
  allowed_roots = codes "/src" ∷ codes "/lib" ∷ [];
  default_flags = codes "-std=c++20 -I. -x c++" ∷ [];
  cache_capacity = 7;
  ast_max_nodes = 7;
  ast_max_bytes = 7;
  transport = stdio;
  http_bind = codes "127.0.0.1";
  http_port = 7;
}

loads : load_config host (source roots) ≡ ok config
unfolding program
loads = refl

refused : load_config host (source (codes "src")) ≡ raise config_error
unfolding program
refused = refl

load_config_safe_example :
    (config.allowed_roots ≡ entries (get (source roots) (codes "CPP_MCP_ALLOWED_ROOTS") []))
    × (config.allowed_roots ≢ [])
    × All (λ r. (isabs r ≡ true) × (host.isdir r ≡ true)) config.allowed_roots
    × (0 < 7)
    × (0 < 7)
    × (0 < 7)
    × ((cache : TuCache (Unit {0})) × (Cache.init (pos 7) ≡ ok cache) × IsValid cache)
load_config_safe_example = load_config_safe host (source roots) config loads
