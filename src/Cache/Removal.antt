-- ===== src/Cache/Removal.antt =====
-- `invalidate` (src/cpp_mcp/core/tu_cache.py): what it removes and what it counts.
use cpp_mcp.Base.{
  ◌+◌, Text, List, [], ◌∷◌, Option, none, some, ◌≡◌, refl, ◌∙◌, ap, arith, length, Bool, true,
  false, not, Bool-cases, inl, inr, keep, All, ◌≟◌,
}
use cpp_mcp.OrderedDict.{delete}
use cpp_mcp.OrderedDict.Laws.{delete-head}
use cpp_mcp.Cache.Keys.{CacheKey, key_eq, key_beq_iff, Host}
use cpp_mcp.Cache.{CacheEntry, TuCache, matches, to_remove, remove_all, invalidated, invalidate}

-- What `invalidate` takes for the build directory.
abbrev pub build_real : Host → Option Text → Option Text
build_real host none = none
build_real host (some b) = some (host.realpath b)

module _ {TU : Type 0} where
  delete_all : List CacheKey → List (CacheKey × CacheEntry TU) → List (CacheKey × CacheEntry TU)
  delete_all [] store = store
  delete_all (key ∷ keys) store = delete_all keys (delete key store)

  remove_all-eq :
      (keys : List CacheKey) (c : TuCache TU)
      → remove_all keys c
        ≡ record c { store = delete_all keys c.store; evictions = c.evictions + length keys }
  unfolding remove_all delete_all
  remove_all-eq [] c = ground arith
  remove_all-eq (key ∷ keys) c =
      remove_all-eq keys (record c { store = delete key c.store; evictions = c.evictions + 1 })
      ∙ ground arith

  -- An item whose key is none of those removed stays in front.
  delete_all-skip :
      (p : CacheKey → Bool) (keys : List CacheKey) (k : CacheKey) (e : CacheEntry TU)
      (store : List (CacheKey × CacheEntry TU))
      → p k ≡ false
      → All (λ key. p key ≡ true) keys
      → delete_all keys ((k, e) ∷ store) ≡ (k, e) ∷ delete_all keys store
  unfolding delete_all delete
  delete_all-skip p [] k e store h a = refl
  delete_all-skip p (key ∷ keys) k e store h a = elim (Bool-cases (k ≟ key)) [
    | inl same ↦ absurd (ground (arith, key_beq_iff k key, a.0))
    | inr other ↦ rw other (delete_all-skip p keys k e (delete key store) h a.1)
  ]

  module _ (file : Text) (build : Option Text) where
    to_remove-matches :
        (store : List (CacheKey × CacheEntry TU))
        → All (λ key. matches file build key ≡ true) (to_remove file build store)
    unfolding to_remove
    to_remove-matches [] = tt
    to_remove-matches ((k, e) ∷ store) = elim (Bool-cases (matches file build k)) [
      | inl yes_match ↦ rw yes_match (yes_match, to_remove-matches store)
      | inr no_match ↦ rw no_match (to_remove-matches store)
    ]

    delete_all-to_remove :
        (store : List (CacheKey × CacheEntry TU))
        → delete_all (to_remove file build store) store
          ≡ keep (λ item. not (matches file build item.0)) store
    unfolding to_remove delete_all
    delete_all-to_remove [] = refl
    delete_all-to_remove ((k, e) ∷ store) = elim (Bool-cases (matches file build k)) [
      | inl yes_match ↦ rw yes_match (
          ap (delete_all (to_remove file build store)) (delete-head k e store)
          ∙ delete_all-to_remove store)
      | inr no_match ↦ rw no_match (
          delete_all-skip (matches file build) (to_remove file build store) k e store no_match
            (to_remove-matches store)
          ∙ ap (λ s. (k, e) ∷ s) (delete_all-to_remove store))
    ]

    length-to_remove :
        (store : List (CacheKey × CacheEntry TU))
        → length (to_remove file build store)
            + length (keep (λ item. not (matches file build item.0)) store)
          ≡ length store
    unfolding to_remove
    length-to_remove [] = omega arith
    length-to_remove ((k, e) ∷ store) = elim (Bool-cases (matches file build k)) [
      | inl yes_match ↦ rw yes_match (omega (arith, length-to_remove store))
      | inr no_match ↦ rw no_match (omega (arith, length-to_remove store))
    ]

  -- An invalidation removes the entries of the file (and of the build directory, if one is given)
  -- and no others, keeps the order of the rest, returns how many it removed, and adds as many to
  -- the evictions.
  pub invalidate_exact :
      (host : Host) (file : Text) (build : Option Text) (c : TuCache TU)
      → ((invalidate host file build c).0.store
          ≡ keep
              (λ item. not (matches (host.realpath file) (build_real host build) item.0))
              c.store)
        × ((invalidate host file build c).1 + length (invalidate host file build c).0.store
            ≡ length c.store)
        × ((invalidate host file build c).0.evictions
            ≡ c.evictions + (invalidate host file build c).1)
  unfolding invalidate invalidated
  invalidate_exact host file build c =
      let keys = to_remove (host.realpath file) (build_real host build) c.store in
      let same : invalidated host file build c ≡ keys = ground arith in
      rw (same, remove_all-eq keys c)
        (
          delete_all-to_remove (host.realpath file) (build_real host build) c.store,
          rw (delete_all-to_remove (host.realpath file) (build_real host build) c.store)
              (length-to_remove (host.realpath file) (build_real host build) c.store),
          refl,
        )

  pub invalidate_keeps :
      (host : Host) (file : Text) (build : Option Text) (c : TuCache TU)
      → ((invalidate host file build c).0.hits ≡ c.hits)
        × ((invalidate host file build c).0.misses ≡ c.misses)
        × ((invalidate host file build c).0.capacity ≡ c.capacity)
  unfolding invalidate
  invalidate_keeps host file build c =
      rw (remove_all-eq (invalidated host file build c) c) (refl, refl, refl)
