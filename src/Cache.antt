-- ===== src/Cache.antt =====
-- src/cpp_mcp/core/tu_cache.py: the cache of parsed translation units. A method takes the cache and
-- returns the new one beside its result. The two sections under the lock are functions of their
-- own, `check` and `insert`, since other threads run between them.
pub mod Keys
pub mod Invariant
pub mod Reads
pub mod Removal
pub mod Threads
mod Tests
use cpp_mcp.Base.{
  ℕ, zero, suc, ◌+◌, Text, List, [], ◌∷◌, Option, none, some, Bool, true, false, ◌&&◌,
  if◌then◌else◌, leb, ltb, length, ℤ, pos, negsuc, eqz, ◌≟◌, list_eq, nat_eq,
}
use cpp_mcp.Errors.{Result, ok, raise, value_error}
use cpp_mcp.OrderedDict.{get, delete, move_to_end, set_item}
use cpp_mcp.Cache.Keys.{CacheKey, key_eq, Host, make_key}

pub record CacheEntry (TU : Type 0) : Type 0 where
  pub tu : TU
  pub source_mtime_ns : ℤ
  pub flags_used : List Text
  pub source_path : Text

-- `_store` lists the least recently used entry first.
pub record TuCache (TU : Type 0) : Type 0 where
  pub capacity : ℕ
  pub store : List (CacheKey × CacheEntry TU)
  pub hits : ℕ
  pub misses : ℕ
  pub evictions : ℕ

-- `os.stat(path).st_mtime_ns` at one moment, `none` where it raises OSError.
abbrev pub Stat : Type 0
Stat = Text → Option ℤ

-- `ParserFn`, which may raise.
abbrev pub ParserFn : Type 0 → Type 0
ParserFn TU = Text → List Text → Result TU

-- A file that is gone has the mtime -1, which is meant to match no entry.
unfoldable pub current_mtime : Option ℤ → ℤ
current_mtime none = negsuc 0
current_mtime (some m) = m

-- After the parse a file that is gone has the mtime 0.
unfoldable pub new_mtime : Option ℤ → ℤ
new_mtime none = pos 0
new_mtime (some m) = m

-- The test of the loop of `invalidate`.
unfoldable pub matches : Text → Option Text → CacheKey → Bool
matches file_real build_real key =
    (key.file_realpath ≟ file_real)
    && elim build_real [ none ↦ true | some b ↦ key.build_realpath ≟ b ]

module _ {TU : Type 0} where
  -- The constructor, whose argument may be any integer.
  unfoldable pub init : ℤ → Result (TuCache TU)
  init (pos (suc n)) =
      ok (record { capacity = suc n; store = []; hits = 0; misses = 0; evictions = 0 })
  init _ = raise value_error

  -- The first section under the lock: a hit, or a counted miss with a stale entry removed.
  unfoldable pub check : CacheKey → Option ℤ → TuCache TU → TuCache TU × Option TU
  unfolding current_mtime
  check key stat c = elim (get key c.store) [
    | none ↦ (record c { misses = c.misses + 1 }, none)
    | some entry ↦
        if eqz (current_mtime stat) entry.source_mtime_ns
        then (record c { store = move_to_end key c.store; hits = c.hits + 1 }, some entry.tu)
        else (
          record c {
            store = delete key c.store;
            evictions = c.evictions + 1;
            misses = c.misses + 1;
          },
          none,
        )
  ]

  -- `while len(self._store) >= self._capacity: popitem(last=False)`, with the items popped counted.
  unfoldable pub make_room :
      ℕ → List (CacheKey × CacheEntry TU) → List (CacheKey × CacheEntry TU) × ℕ
  make_room capacity [] = ([], 0)
  make_room capacity (item ∷ store) =
      let rest = make_room capacity store in
      if leb capacity (length (item ∷ store)) then (rest.0, rest.1 + 1) else (item ∷ store, 0)

  -- The second section under the lock.
  unfoldable pub insert : CacheKey → CacheEntry TU → TuCache TU → TuCache TU
  unfolding make_room
  insert key entry c =
      let (store, popped) = make_room c.capacity c.store in
      record c {
        store = move_to_end key (set_item key entry store);
        evictions = c.evictions + popped;
      }

  -- The entry that a finished parse leaves.
  unfoldable pub new_entry : TU → Option ℤ → List Text → Text → CacheEntry TU
  unfolding new_mtime
  new_entry tu stat flags source_path = record {
    tu = tu;
    source_mtime_ns = new_mtime stat;
    flags_used = flags;
    source_path = source_path;
  }

  -- The file system answers `before` in the first section, and `after` once the parser is done.
  -- What the parser raises passes through, and the miss stays counted.
  unfoldable pub get_or_parse :
      Host
      → Stat
      → Stat
      → Text
      → Option Text
      → List Text
      → ParserFn TU
      → TuCache TU
      → TuCache TU × Result (TU × Bool)
  get_or_parse host before after file_path build_path flags parser c =
      let key = make_key host file_path build_path flags in
      let source_path = host.realpath file_path in
      let (c', found) = check key (before source_path) c in
      elim found [
        | some tu ↦ (c', ok (tu, true))
        | none ↦ elim (parser source_path flags) [
          | raise e ↦ (c', raise e)
          | ok tu ↦
              (insert key (new_entry tu (after source_path) flags source_path) c', ok (tu, false))
        ]
      ]

  unfoldable pub to_remove : Text → Option Text → List (CacheKey × CacheEntry TU) → List CacheKey
  unfolding matches
  to_remove file_real build_real [] = []
  to_remove file_real build_real ((key, entry) ∷ store) =
      let rest = to_remove file_real build_real store in
      if matches file_real build_real key then key ∷ rest else rest

  -- `for key in to_remove: del ...; evictions += 1`
  unfoldable pub remove_all : List CacheKey → TuCache TU → TuCache TU
  remove_all [] c = c
  remove_all (key ∷ keys) c =
      remove_all keys (record c { store = delete key c.store; evictions = c.evictions + 1 })

  -- The keys that match, by the real paths.
  unfoldable pub invalidated : Host → Text → Option Text → TuCache TU → List CacheKey
  unfolding to_remove
  invalidated host file_path build_path c =
      let build_real : Option Text = elim build_path [
        | none ↦ none
        | some b ↦ some (host.realpath b)
      ] in
      to_remove (host.realpath file_path) build_real c.store

  unfoldable pub invalidate : Host → Text → Option Text → TuCache TU → TuCache TU × ℕ
  unfolding remove_all
  invalidate host file_path build_path c =
      let keys = invalidated host file_path build_path c in (remove_all keys c, length keys)

  unfoldable pub clear : TuCache TU → TuCache TU
  clear c = record c { store = [] }

-- `stats`, over a type of floats with its division and its zero.
pub record Stats (F : Type 0) : Type 0 where
  pub cache_size : ℕ
  pub cache_capacity : ℕ
  pub hits : ℕ
  pub misses : ℕ
  pub evictions : ℕ
  pub cache_hit_rate : F

unfoldable pub stats : {TU F : Type 0} → (ℕ → ℕ → F) → F → TuCache TU → Stats F
stats divide zero_f c =
    let total = c.hits + c.misses in
    record {
      cache_size = length c.store;
      cache_capacity = c.capacity;
      hits = c.hits;
      misses = c.misses;
      evictions = c.evictions;
      cache_hit_rate = if ltb 0 total then divide c.hits total else zero_f;
    }
