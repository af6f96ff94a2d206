-- ===== src/Cache/Threads/Steps.antt =====
-- Each step of a system of threads (src/cpp_mcp/core/tu_cache.py) keeps it consistent.
use cpp_mcp.Base.{
  suc, ◌+◌, ◌-◌, ◌≤◌, Text, List, ◌∷◌, ◌++◌, Option, none, some, ◌≡◌, refl, ap, arith, length, ℤ,
  drop, length-drop, length-append,
}
use cpp_mcp.OrderedDict.Laws.{length-touch, length-delete, length-delete-le}
use cpp_mcp.Cache.Keys.{CacheKey, key_eq, Host}
use cpp_mcp.Cache.{CacheEntry, TuCache, check, insert, invalidate, clear}
use cpp_mcp.Cache.Invariant.{
  IsValid, missed, hit, stale, check_cases, check-IsValid, insert_store, insert_evictions,
  insert-IsValid, invalidate-IsValid, clear-IsValid,
}
use cpp_mcp.Cache.Removal.{invalidate_exact, invalidate_keeps}
use cpp_mcp.Cache.Threads.{System, Origin, IsConsistent}
use cpp_mcp.Cache.Threads.Entries.{All-drop, All-keep, All-delete, All-touch, All-get}

module _ {TU : Type 0} (Parsed : CacheKey → CacheEntry TU → Type 0) where
  pub find-IsConsistent :
      (key : CacheKey) (stat : Option ℤ) (tu : TU) (s : System TU)
      → (check key stat s.cache).1 ≡ some tu
      → IsConsistent Parsed s
      → IsConsistent Parsed
          (record s { cache = (check key stat s.cache).0; lookups = s.lookups + 1 })
  find-IsConsistent key stat tu s found h =
      let valid' = check-IsValid key stat s.cache h.valid in
      elim (check_cases key stat s.cache) [
        | missed _ q ↦ absurd (ground (arith, q, found))
        | stale _ _ _ q ↦ absurd (ground (arith, q, found))
        | hit entry stored _ q ↦ record {
          valid = valid';
          counted = rw q (omega (arith, h.counted));
          resolved = rw q h.resolved;
          evicted = rw q (
              omega (
                arith,
                h.evicted,
                length-touch key entry s.cache.store,
                length-delete key entry s.cache.store stored,
              ));
          origins = rw q (
              All-touch (Origin Parsed) key entry s.cache.store
                (All-get (Origin Parsed) key entry s.cache.store stored h.origins) h.origins);
        }
      ]

  pub begin-IsConsistent :
      (key : CacheKey) (stat : Option ℤ) (s : System TU)
      → (check key stat s.cache).1 ≡ none
      → IsConsistent Parsed s
      → IsConsistent Parsed (record s {
        cache = (check key stat s.cache).0;
        pending = key ∷ s.pending;
        lookups = s.lookups + 1;
      })
  begin-IsConsistent key stat s missing h =
      let valid' = check-IsValid key stat s.cache h.valid in
      elim (check_cases key stat s.cache) [
        | hit _ _ _ q ↦ absurd (ground (arith, q, missing))
        | missed _ q ↦ record {
          valid = valid';
          counted = rw q (omega (arith, h.counted));
          resolved = rw q (omega (arith, h.resolved));
          evicted = rw q h.evicted;
          origins = rw q h.origins;
        }
        | stale entry stored _ q ↦ record {
          valid = valid';
          counted = rw q (omega (arith, h.counted));
          resolved = rw q (omega (arith, h.resolved));
          evicted = rw q (omega (arith, h.evicted, length-delete key entry s.cache.store stored));
          origins = rw q (All-delete (Origin Parsed) key s.cache.store h.origins);
        }
      ]

  insert_counts :
      (key : CacheKey) (entry : CacheEntry TU) (c : TuCache TU)
      → ((insert key entry c).hits ≡ c.hits) × ((insert key entry c).misses ≡ c.misses)
  unfolding insert
  insert_counts key entry c = (refl, refl)

  insert_room :
      (key : CacheKey) (entry : CacheEntry TU) (c : TuCache TU)
      → IsValid c
      → length (insert key entry c).store + (insert key entry c).evictions
        ≤ length c.store + c.evictions + 1
  insert_room key entry c v =
      let n = suc (length c.store) - c.capacity in
      rw (insert_store key entry c v.positive, insert_evictions key entry c v.positive)
        (omega (
          arith,
          v.positive,
          length-touch key entry (drop n c.store),
          length-delete-le key (drop n c.store),
          length-drop n c.store,
        ))

  pub finish-IsConsistent :
      (earlier later : List CacheKey) (key : CacheKey) (entry : CacheEntry TU) (s : System TU)
      → s.pending ≡ earlier ++ key ∷ later
      → Parsed key entry
      → IsConsistent Parsed s
      → IsConsistent Parsed (record s {
        cache = insert key entry s.cache;
        pending = earlier ++ later;
        inserted = s.inserted + 1;
      })
  finish-IsConsistent earlier later key entry s split parsed h =
      let n = suc (length s.cache.store) - s.cache.capacity in
      record {
        valid = insert-IsValid key entry s.cache h.valid;
        counted = omega (arith, insert_counts key entry s.cache, h.counted);
        resolved = omega (
          arith,
          insert_counts key entry s.cache,
          h.resolved,
          ap length split,
          length-append earlier (key ∷ later),
          length-append earlier later,
        );
        evicted = omega (arith, h.evicted, insert_room key entry s.cache h.valid);
        origins = rw (insert_store key entry s.cache h.valid.positive) (
            All-touch (Origin Parsed) key entry (drop n s.cache.store) parsed
              (All-drop (Origin Parsed) n s.cache.store h.origins));
      }

  pub fail-IsConsistent :
      (earlier later : List CacheKey) (key : CacheKey) (s : System TU)
      → s.pending ≡ earlier ++ key ∷ later
      → IsConsistent Parsed s
      → IsConsistent Parsed (record s { pending = earlier ++ later; failed = s.failed + 1 })
  fail-IsConsistent earlier later key s split h = record {
    valid = h.valid;
    counted = h.counted;
    resolved = omega (
      arith,
      h.resolved,
      ap length split,
      length-append earlier (key ∷ later),
      length-append earlier later,
    );
    evicted = h.evicted;
    origins = h.origins;
  }

  pub drop_file-IsConsistent :
      (host : Host) (file : Text) (build : Option Text) (s : System TU)
      → IsConsistent Parsed s
      → IsConsistent Parsed (record s { cache = (invalidate host file build s.cache).0 })
  drop_file-IsConsistent host file build s h =
      let removal = invalidate_exact host file build s.cache in
      record {
        valid = invalidate-IsValid host file build s.cache h.valid;
        counted = omega (arith, h.counted, invalidate_keeps host file build s.cache);
        resolved = omega (arith, h.resolved, invalidate_keeps host file build s.cache);
        evicted = omega (arith, h.evicted, removal.1, removal.2);
        origins = rw (removal.0) (All-keep (Origin Parsed) _ s.cache.store h.origins);
      }

  pub drop_all-IsConsistent :
      (s : System TU)
      → IsConsistent Parsed s
      → IsConsistent Parsed (record s { cache = clear s.cache })
  unfolding clear
  drop_all-IsConsistent s h = record {
    valid = clear-IsValid s.cache h.valid;
    counted = h.counted;
    resolved = h.resolved;
    evicted = omega (arith, h.evicted);
    origins = tt;
  }
