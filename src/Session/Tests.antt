-- ===== src/Session/Tests.antt =====
-- The session of src/cpp_mcp/core/clang_session.py at its start, at two lookups and at its end, and the search for
-- libclang on a disk.
use cpp_mcp.Base.{
  List, ◌++◌, ℕ, Text, [], ◌∷◌, none, some, Bool, true, false, length, ◌≟◌, list_eq, nat_eq,
  if◌then◌else◌, codes, pos, ◌≡◌, refl,
}
use cpp_mcp.Errors.{Result, ok, raise, other}
use cpp_mcp.OrderedDict.{get, set_item, move_to_end}
use cpp_mcp.Cache.{
  Stat, check, insert, make_room, new_entry, current_mtime, new_mtime, get_or_parse, clear,
}
use cpp_mcp.Cache.Keys.{Host, make_key}
use cpp_mcp.Session.{get_or_parse_sync, effective_flags, session_parser, strip_options}
use cpp_mcp.Session.Lifecycle.{
  Libclang, ClangSession, get_or_create_index, parse_sync, index_after, parse, shutdown, aclose,
}
use cpp_mcp.Session.Discovery.{
  first_that_loads, Disk, refused, not_loaded, loaded, configure_from, configure_libclang,
}

program : Unit {0}
unfolding get set_item move_to_end check insert make_room new_entry current_mtime new_mtime
    get_or_parse clear make_key get_or_parse_sync effective_flags session_parser strip_options
    get_or_create_index parse_sync index_after parse shutdown aclose configure_from
    configure_libclang
program = tt

abbrev host : Host
host = record { realpath = λ p. p; flags_sha1 = λ flags. elim flags [ [] ↦ [] | f ∷ rest ↦ f ] }

abbrev a_cpp : Text
a_cpp = codes "/a.cpp"

abbrev at_7 : Stat
at_7 path = some (pos 7)

-- Units are numbers here: the length of the path.
abbrev libclang : Result (Unit {0}) → Libclang ℕ
libclang made = record { create = made; parse = λ path flags options. ok (length path) }

abbrev fresh : ClangSession ℕ
fresh = record {
  index = false;
  cache = record { capacity = 1; store = []; hits = 0; misses = 0; evictions = 0 };
  running = true;
}

look_up : Libclang ℕ → ClangSession ℕ → ClangSession ℕ × Result (ℕ × Bool)
unfolding program
look_up lib s = parse lib host at_7 at_7 a_cpp none [] 0 s

abbrev parsed : ClangSession ℕ
parsed = (look_up (libclang (ok tt)) fresh).0

-- The first lookup makes the index, the second is a hit, a libclang that cannot be loaded leaves no index,
-- and a session that is closed takes no call and keeps no unit.
run :
    ((look_up (libclang (ok tt)) fresh).1 ≡ ok (6, false))
    × (parsed.index ≡ true)
    × ((look_up (libclang (raise other)) parsed).1 ≡ ok (6, true))
    × ((look_up (libclang (raise other)) fresh).0.index ≡ false)
    × ((look_up (libclang (raise other)) fresh).1 ≡ raise other)
    × (look_up (libclang (ok tt)) (aclose parsed) ≡ (aclose parsed, raise other))
    × ((aclose parsed).cache.store ≡ [])
unfolding program look_up
run = (refl, refl, refl, refl, refl, refl, refl)

-- A directory that the binding refuses, and one from which it loads nothing, before one that serves.
abbrev disk : Disk
disk = record {
  is_dir = λ p. true;
  has_library = λ p. true;
  attempt = λ p.
      if p ≟ codes "/opt/homebrew/opt/llvm/lib"
      then loaded
      else if p ≟ codes "/mine"
      then refused
      else not_loaded;
}

-- A candidate that is refused, and one that loads nothing.
abbrev two_without : List Text
two_without = codes "/mine" ∷ codes "/usr/local/opt/llvm/lib" ∷ []

configured :
    (configure_libclang true (codes "/mine") disk none ≡ some (codes "/opt/homebrew/opt/llvm/lib"))
    × (configure_libclang true [] (record disk { attempt = λ p. not_loaded }) none
        ≡ some (codes "/usr/lib"))
    × (configure_libclang false [] disk none ≡ none)
unfolding program
configured = (refl, refl, refl)

first_that_loads_example :
    configure_from disk
      (two_without ++ codes "/opt/homebrew/opt/llvm/lib" ∷ codes "/usr/lib" ∷ [])
      none
    ≡ some (codes "/opt/homebrew/opt/llvm/lib")
first_that_loads_example =
    first_that_loads disk two_without (codes "/opt/homebrew/opt/llvm/lib") (codes "/usr/lib" ∷ [])
      none (refl, (refl, tt)) refl
