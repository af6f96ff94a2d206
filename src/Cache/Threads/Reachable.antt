-- ===== src/Cache/Threads/Reachable.antt =====
-- What holds in every state that the threads over the cache of src/cpp_mcp/core/tu_cache.py can reach.
use cpp_mcp.Base.{Option, some, ◌≡◌, arith, ℤ}
use cpp_mcp.Cache.Keys.{CacheKey, key_eq}
use cpp_mcp.Cache.{CacheEntry, current_mtime, check}
use cpp_mcp.Cache.Invariant.{missed, hit, stale, check_cases}
use cpp_mcp.Cache.Threads.{
  System, Step, find, begin, finish, fail, drop_file, drop_all, Reach, here, next, Origin,
  IsConsistent,
}
use cpp_mcp.Cache.Threads.Entries.{All-get}
use cpp_mcp.Cache.Threads.Steps.{
  find-IsConsistent, begin-IsConsistent, finish-IsConsistent, fail-IsConsistent,
  drop_file-IsConsistent, drop_all-IsConsistent,
}

module _ {TU : Type 0} (Parsed : CacheKey → CacheEntry TU → Type 0) where
  Step-IsConsistent :
      {s t : System TU} → Step Parsed s t → IsConsistent Parsed s → IsConsistent Parsed t
  Step-IsConsistent (find key stat tu s p) h = find-IsConsistent Parsed key stat tu s p h
  Step-IsConsistent (begin key stat s p) h = begin-IsConsistent Parsed key stat s p h
  Step-IsConsistent (finish l r key entry s p q) h =
      finish-IsConsistent Parsed l r key entry s p q h
  Step-IsConsistent (fail l r key s p) h = fail-IsConsistent Parsed l r key s p h
  Step-IsConsistent (drop_file host file build s) h =
      drop_file-IsConsistent Parsed host file build s h
  Step-IsConsistent (drop_all s) h = drop_all-IsConsistent Parsed s h

  -- From a consistent state, whatever the interleaving of lookups, parses that end or fail,
  -- invalidations and clears: the capacity is never exceeded and no key is there twice, every
  -- lookup is counted once as a hit or a miss, every miss is inserted, failed or under way, the
  -- entries kept and evicted are no more than those inserted, and every entry was parsed for its
  -- key.
  pub Reach-IsConsistent :
      {s t : System TU} → IsConsistent Parsed s → Reach Parsed s t → IsConsistent Parsed t
  Reach-IsConsistent h here = h
  Reach-IsConsistent h (next r step) = Step-IsConsistent step (Reach-IsConsistent h r)

  -- In any reachable state a hit hands out a unit that a parse for that key produced, and only
  -- at the mtime that was recorded with it.
  pub hit_origin :
      {s t : System TU} (key : CacheKey) (stat : Option ℤ) (tu : TU)
      → IsConsistent Parsed s
      → Reach Parsed s t
      → (check key stat t.cache).1 ≡ some tu
      → (entry : CacheEntry TU) × Parsed key entry
        × (entry.tu ≡ tu)
        × (current_mtime stat ≡ entry.source_mtime_ns)
  hit_origin {s} {t} key stat tu h r found = elim (check_cases key stat t.cache) [
    | missed _ q ↦ absurd (ground (arith, q, found))
    | stale _ _ _ q ↦ absurd (ground (arith, q, found))
    | hit entry stored now q ↦ (
      entry,
      All-get (Origin Parsed) key entry t.cache.store stored (Reach-IsConsistent h r).origins,
      ground (arith, q, found),
      now,
    )
  ]
