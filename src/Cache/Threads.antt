-- ===== src/Cache/Threads.antt =====
-- Several threads over one cache (src/cpp_mcp/core/tu_cache.py): the lock makes the two sections
-- of `get_or_parse`, `invalidate` and `clear` atomic, and other threads run while one parses.
pub mod Entries
pub mod Steps
pub mod Reachable
use cpp_mcp.Base.{
  ℕ, zero, suc, ◌+◌, ◌-◌, ◌≤◌, Text, List, [], ◌∷◌, ◌++◌, Option, none, some, ◌≡◌, refl, ap, subst,
  arith, length, ℤ, All, All-append, drop, length-drop, length-append, keep, Bool, Bool-cases, inl,
  inr, ◌≟◌,
}
use cpp_mcp.OrderedDict.{get, delete, touch}
use cpp_mcp.OrderedDict.Laws.{length-touch, length-delete, length-delete-le}
use cpp_mcp.Cache.Keys.{CacheKey, key_eq, key_beq_iff, Host}
use cpp_mcp.Cache.{CacheEntry, TuCache, current_mtime, check, insert, invalidate, clear}
use cpp_mcp.Cache.Invariant.{
  IsValid, missed, hit, stale, check_cases, check-IsValid, insert_store, insert_evictions,
  insert-IsValid, invalidate-IsValid, clear-IsValid,
}
use cpp_mcp.Cache.Removal.{invalidate_exact, invalidate_keeps}

-- The cache, the keys whose parse is under way, and counts of what has happened so far.
pub record System (TU : Type 0) : Type 0 where
  pub cache : TuCache TU
  pub pending : List CacheKey
  pub lookups : ℕ
  pub inserted : ℕ
  pub failed : ℕ

-- `Parsed key entry` says that a parse for `key` produced `entry`.
module _ {TU : Type 0} (Parsed : CacheKey → CacheEntry TU → Type 0) where
  pub data Step : System TU → System TU → Type 0 where
    find :
        (key : CacheKey) (stat : Option ℤ) (tu : TU) (s : System TU)
        → (check key stat s.cache).1 ≡ some tu
        → Step s (record s { cache = (check key stat s.cache).0; lookups = s.lookups + 1 })
    begin :
        (key : CacheKey) (stat : Option ℤ) (s : System TU)
        → (check key stat s.cache).1 ≡ none
        → Step s (record s {
          cache = (check key stat s.cache).0;
          pending = key ∷ s.pending;
          lookups = s.lookups + 1;
        })
    finish :
        (earlier later : List CacheKey) (key : CacheKey) (entry : CacheEntry TU) (s : System TU)
        → s.pending ≡ earlier ++ key ∷ later
        → Parsed key entry
        → Step s (record s {
          cache = insert key entry s.cache;
          pending = earlier ++ later;
          inserted = s.inserted + 1;
        })
    fail :
        (earlier later : List CacheKey) (key : CacheKey) (s : System TU)
        → s.pending ≡ earlier ++ key ∷ later
        → Step s (record s { pending = earlier ++ later; failed = s.failed + 1 })
    drop_file :
        (host : Host) (file : Text) (build : Option Text) (s : System TU)
        → Step s (record s { cache = (invalidate host file build s.cache).0 })
    drop_all : (s : System TU) → Step s (record s { cache = clear s.cache })

  pub data Reach (s : System TU) : System TU → Type 0 where
    here : Reach s s
    next : {t u : System TU} → Reach s t → Step t u → Reach s u

  abbrev pub Origin : CacheKey × CacheEntry TU → Type 0
  Origin item = Parsed item.0 item.1

  -- No lookup is lost, no entry is there that was not parsed for its key, and no more entries
  -- are kept and evicted than were inserted.
  pub record IsConsistent (s : System TU) : Type 0 where
    pub valid : IsValid s.cache
    pub counted : s.cache.hits + s.cache.misses ≡ s.lookups
    pub resolved : s.cache.misses ≡ s.inserted + s.failed + length s.pending
    pub evicted : length s.cache.store + s.cache.evictions ≤ s.inserted
    pub origins : All Origin s.cache.store
