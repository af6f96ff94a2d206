-- ===== src/Cache/Tests.antt =====
-- Runs of the cache of src/cpp_mcp/core/tu_cache.py, and the theorems at them.
use cpp_mcp.Base.{
  ℕ, Text, [], ◌∷◌, none, some, true, false, ◌≡◌, ◌≢◌, refl, arith, pos, length, codes, ap,
}
use cpp_mcp.Errors.{ok, raise, value_error}
use cpp_mcp.OrderedDict.{get, delete, move_to_end, set_item}
use cpp_mcp.Cache.Keys.{CacheKey, key_eq, Host, make_key}
use cpp_mcp.Cache.{
  CacheEntry, TuCache, Stat, ParserFn, current_mtime, new_mtime, init, check, make_room, insert,
  new_entry, get_or_parse, matches, to_remove, remove_all, invalidated, invalidate, clear, stats,
}
use cpp_mcp.Cache.Invariant.{IsValid}
use cpp_mcp.Cache.Reads.{parsed_then_hit}
use cpp_mcp.Cache.Threads.{System, Reach, here, next, begin, finish, IsConsistent}
use cpp_mcp.Cache.Threads.Reachable.{Reach-IsConsistent, hit_origin}

program : Unit {0}
unfolding get delete move_to_end set_item make_key current_mtime new_mtime init check make_room
    insert new_entry get_or_parse matches to_remove remove_all invalidated invalidate clear stats
program = tt

-- A host without links, whose digest is the first flag.
abbrev host : Host
host = record { realpath = λ p. p; flags_sha1 = λ flags. elim flags [ [] ↦ [] | f ∷ rest ↦ f ] }

abbrev a_cpp : Text
a_cpp = codes "/a.cpp"

abbrev b_cpp : Text
b_cpp = codes "/b.cpp"

abbrev key_a : CacheKey
key_a = make_key host a_cpp none []

abbrev key_b : CacheKey
key_b = make_key host b_cpp none []

abbrev entry_of : ℕ → ℕ → Text → CacheEntry ℕ
entry_of tu m path = record {
  tu = tu;
  source_mtime_ns = pos m;
  flags_used = [];
  source_path = path;
}

-- Units are numbers here: the length of the path.
abbrev parser : ParserFn ℕ
parser path flags = ok (length path)

abbrev at : ℕ → Stat
at m path = some (pos m)

abbrev empty : TuCache ℕ
empty = record { capacity = 1; store = []; hits = 0; misses = 0; evictions = 0 }

abbrev one : TuCache ℕ
one = record empty { store = (key_a, entry_of 6 7 a_cpp) ∷ []; misses = 1 }

-- The constructor refuses 0, a first lookup parses, a second one hits, and a changed mtime parses
-- again.
run :
    (init {TU = ℕ} (pos 0) ≡ raise value_error)
    × (get_or_parse host (at 7) (at 7) a_cpp none [] parser empty ≡ (one, ok (6, false)))
    × (get_or_parse host (at 7) (at 7) a_cpp none [] parser one
        ≡ (record one { hits = 1 }, ok (6, true)))
    × (get_or_parse host (at 8) (at 8) a_cpp none [] parser one ≡ (
      record one { store = (key_a, entry_of 6 8 a_cpp) ∷ []; misses = 2; evictions = 1 },
      ok (6, false),
    ))
unfolding program
run = (refl, refl, refl, refl)

-- A file that is gone after its parse is stored with the mtime 0.
gone :
    (get_or_parse host (at 7) (λ p. none) a_cpp none [] parser empty).0.store
    ≡ (key_a, entry_of 6 0 a_cpp) ∷ []
unfolding program
gone = refl

empty-IsValid : IsValid empty
empty-IsValid = record { positive = omega arith; bounded = omega arith; distinct = tt }

one-IsValid : IsValid one
unfolding get
one-IsValid = record { positive = omega arith; bounded = omega arith; distinct = (refl, tt) }

run_hit :
    get_or_parse host (at 7) (at 7) a_cpp none [] parser one
    ≡ (record one { hits = 1 }, ok (6, true))
run_hit = run.2

other : key_a ≢ key_b
unfolding make_key
other h = absurd (ground (arith, ap (λ (k : CacheKey). k.file_realpath) h))

abbrev two : TuCache ℕ
two = record one { capacity = 2 }

two-IsValid : IsValid two
unfolding get
two-IsValid = record { positive = omega arith; bounded = omega arith; distinct = (refl, tt) }

a_stays :
    get key_a (get_or_parse host (at 7) (at 7) b_cpp none [] parser two).0.store
    ≡ some (entry_of 6 7 a_cpp)
unfolding program
a_stays = refl

parsed_then_hit_example :
    (get_or_parse host (at 7) (at 9) a_cpp none [] (λ path flags. raise value_error) one).1
    ≡ ok (6, true)
parsed_then_hit_example =
    parsed_then_hit host (at 7) (at 7) a_cpp none [] parser empty one 6 (at 7) (at 9)
      (λ path flags. raise value_error) (pos 7) empty-IsValid (run.1) refl refl

-- What the parser above produces.
abbrev Parsed : CacheKey → CacheEntry ℕ → Type 0
Parsed key entry = entry.tu ≡ length key.file_realpath

abbrev started : System ℕ
started = record { cache = empty; pending = []; lookups = 0; inserted = 0; failed = 0 }

started-IsConsistent : IsConsistent Parsed started
started-IsConsistent = record {
  valid = empty-IsValid;
  counted = refl;
  resolved = refl;
  evicted = omega arith;
  origins = tt;
}

abbrev waiting : System ℕ
waiting = record started { cache = record empty { misses = 1 }; pending = key_a ∷ []; lookups = 1 }

abbrev filled : System ℕ
filled = record started { cache = one; lookups = 1; inserted = 1 }

-- One thread misses and begins to parse, then ends.
reached : Reach Parsed started filled
unfolding program
reached =
    next (next here (begin key_a (at 7 a_cpp) started refl))
      (finish [] [] key_a (entry_of 6 7 a_cpp) waiting refl refl)

Reach-IsConsistent_example : IsConsistent Parsed filled
Reach-IsConsistent_example = Reach-IsConsistent Parsed started-IsConsistent reached

found : (check key_a (at 7 a_cpp) filled.cache).1 ≡ some 6
unfolding program
found = refl

hit_origin_example :
    (entry : CacheEntry ℕ) × Parsed key_a entry
    × (entry.tu ≡ 6)
    × (current_mtime (at 7 a_cpp) ≡ entry.source_mtime_ns)
hit_origin_example = hit_origin Parsed key_a (at 7 a_cpp) 6 started-IsConsistent reached found
