-- ===== src/Cache/Reads.antt =====
-- What can be read from the cache after a lookup or an invalidation
-- (src/cpp_mcp/core/tu_cache.py).
use cpp_mcp.Base.{
  ℕ, zero, suc, ◌+◌, ◌-◌, Text, List, [], ◌∷◌, Option, some, ◌≡◌, ◌≢◌, ◌∙◌, ap, arith, length, ℤ,
  true, false, leb, Option-cases, inl, inr, drop, if◌then◌else◌,
}
use cpp_mcp.Errors.{ok, Result-cases}
use cpp_mcp.OrderedDict.{get, IsDistinct, touch}
use cpp_mcp.OrderedDict.Laws.{get-touch, get-delete_ne, get-delete_self}
use cpp_mcp.Cache.Keys.{CacheKey, key_eq, key_beq_iff, Host, make_key}
use cpp_mcp.Cache.{
  CacheEntry, TuCache, Stat, ParserFn, current_mtime, new_mtime, check, insert, get_or_parse,
  new_entry,
}
use cpp_mcp.Cache.Invariant.{
  IsValid, missed, hit, stale, check_cases, check-IsValid, insert_store, insert_evictions,
  get_or_parse_found, get_or_parse_parsed, get_or_parse_raised, IsDistinct-drop,
}

module _ {TU : Type 0} where
  get_of_get-drop :
      (n : ℕ) (key : CacheKey) (e : CacheEntry TU) (store : List (CacheKey × CacheEntry TU))
      → IsDistinct store
      → get key (drop n store) ≡ some e
      → get key store ≡ some e
  unfolding get
  get_of_get-drop zero key e store d h = h
  get_of_get-drop (suc n) key e [] d h = h
  get_of_get-drop (suc n) key e ((k, x) ∷ store) d h =
      let found : get key store ≡ some e = get_of_get-drop n key e store d.1 h in
      ground (arith, key_beq_iff k key, d.0, found)

  -- How many items a new one displaces.
  abbrev pub displaced : TuCache TU → ℕ
  displaced c = if leb c.capacity (length c.store) then 1 else 0

  -- In a valid cache an insert makes room for one entry only: below the capacity nothing is
  -- evicted, at the capacity exactly the least recently used entry; what stays keeps its order,
  -- and the new entry is the most recent.
  pub insert_lru :
      (key : CacheKey) (entry : CacheEntry TU) (c : TuCache TU)
      → IsValid c
      → ((insert key entry c).store ≡ touch key entry (drop (displaced c) c.store))
        × ((insert key entry c).evictions ≡ c.evictions + displaced c)
  insert_lru key entry c v =
      let e : suc (length c.store) - c.capacity ≡ displaced c =
        ground (arith, v.bounded, v.positive) in
      (
        insert_store key entry c v.positive ∙ ap (λ n. touch key entry (drop n c.store)) e,
        insert_evictions key entry c v.positive ∙ ap (λ n. c.evictions + n) e,
      )

  get-insert_self :
      (key : CacheKey) (entry : CacheEntry TU) (c : TuCache TU)
      → IsValid c
      → get key (insert key entry c).store ≡ some entry
  get-insert_self key entry c v = rw (insert_store key entry c v.positive) (
      ground (
        arith,
        get-touch key key entry (drop (suc (length c.store) - c.capacity) c.store)
            (IsDistinct-drop _ c.store v.distinct),
        key_beq_iff key key,
      ))

  get-insert_ne :
      (key j : CacheKey) (entry e : CacheEntry TU) (c : TuCache TU)
      → IsValid c
      → j ≢ key
      → get j (insert key entry c).store ≡ some e
      → get j c.store ≡ some e
  get-insert_ne key j entry e c v ne h =
      let n = suc (length c.store) - c.capacity in
      let h' : get j (touch key entry (drop n c.store)) ≡ some e =
        rw (insert_store key entry c v.positive) at h in
      get_of_get-drop n j e c.store v.distinct (
        ground (
          arith,
          get-touch key j entry (drop n c.store) (IsDistinct-drop n c.store v.distinct),
          key_beq_iff key j,
          h',
        ))

  get-check :
      (key j : CacheKey) (stat : Option ℤ) (e : CacheEntry TU) (c : TuCache TU)
      → IsValid c
      → get j (check key stat c).0.store ≡ some e
      → get j c.store ≡ some e
  get-check key j stat e c v = elim (check_cases key stat c) [
    | missed _ q ↦ rw q (λ h. h)
    | hit entry found _ q ↦
        rw q
          (λ h. ground (arith, get-touch key j entry c.store v.distinct, key_beq_iff key j, found))
    | stale entry _ _ q ↦ rw q (λ h. ground (
      arith,
      get-delete_ne key j c.store,
      get-delete_self key c.store v.distinct,
      key_beq_iff key j,
    ))
  ]

  -- A stored entry whose mtime is the current one is found, and the parser is not asked.
  stored_is_found :
      (host : Host) (before after : Stat) (file : Text) (build : Option Text) (flags : List Text)
      (parser : ParserFn TU) (c : TuCache TU) (entry : CacheEntry TU)
      → get (make_key host file build flags) c.store ≡ some entry
      → current_mtime (before (host.realpath file)) ≡ entry.source_mtime_ns
      → (get_or_parse host before after file build flags parser c).1 ≡ ok (entry.tu, true)
  stored_is_found host before after file build flags parser c entry stored now =
      elim (check_cases (make_key host file build flags) (before (host.realpath file)) c) [
        | missed gone _ ↦ absurd (cc (gone, stored))
        | stale other found ne _ ↦ absurd (ne (cc (found, stored, now)))
        | hit other found _ q ↦
            ap (λ r. r.1)
              (get_or_parse_found host before after file build flags parser c entry.tu
                (cc (q, found, stored)))
      ]

  module _ (host : Host) (before after : Stat) (file : Text) (build : Option Text)
      (flags : List Text) (parser : ParserFn TU) (c : TuCache TU) where
    -- A lookup that reports a hit returns the unit that is stored under the key, and only if the
    -- file's current mtime (-1 for a file that is gone) is the mtime stored beside it.
    pub hit_is_fresh :
        (c' : TuCache TU) (tu : TU)
        → get_or_parse host before after file build flags parser c ≡ (c', ok (tu, true))
        → (entry : CacheEntry TU) × (get (make_key host file build flags) c.store ≡ some entry)
          × (entry.tu ≡ tu)
          × (current_mtime (before (host.realpath file)) ≡ entry.source_mtime_ns)
          × (c'.hits ≡ c.hits + 1)
          × (c'.misses ≡ c.misses)
    unfolding get_or_parse
    hit_is_fresh c' tu h =
        elim (check_cases (make_key host file build flags) (before (host.realpath file)) c) [
          | missed _ q ↦ absurd (ground (arith, q))
          | stale _ _ _ q ↦ absurd (ground (arith, q))
          | hit entry found fresh q ↦
              (entry, found, ground (arith, q), fresh, ground (arith, q), ground (arith, q))
        ]

    -- Nothing that a lookup does puts an entry under another key, or changes one.
    pub other_keys :
        (j : CacheKey) (e : CacheEntry TU)
        → IsValid c
        → j ≢ make_key host file build flags
        → get j (get_or_parse host before after file build flags parser c).0.store ≡ some e
        → get j c.store ≡ some e
    other_keys j e v ne =
        let key = make_key host file build flags in
        let path = host.realpath file in
        let v' = check-IsValid key (before path) c v in
        let below = get-check key j (before path) e c v in
        elim (Option-cases (check key (before path) c).1) [
          | inr (tu, found) ↦
              rw (get_or_parse_found host before after file build flags parser c tu found) below
          | inl miss ↦ elim (Result-cases (parser path flags)) [
            | inl (tu, p) ↦
                rw (get_or_parse_parsed host before after file build flags parser c tu miss p)
                  (λ h. below (get-insert_ne key j _ e _ v' ne h))
            | inr (x, p) ↦
                rw (get_or_parse_raised host before after file build flags parser c x miss p) below
          ]
        ]

    parsed-eq-insert :
        (c' : TuCache TU) (tu : TU)
        → get_or_parse host before after file build flags parser c ≡ (c', ok (tu, false))
        → c'
          ≡ insert
              (make_key host file build flags)
              (new_entry tu (after (host.realpath file)) flags (host.realpath file))
              (check (make_key host file build flags) (before (host.realpath file)) c).0
    unfolding get_or_parse
    parsed-eq-insert c' tu h = ground arith

    -- After a successful parse of a file that is still there, the next lookup of the same file,
    -- build directory and flags is a hit with the same unit as long as the mtime stays, whatever
    -- the parser would now do.
    pub parsed_then_hit :
        (c' : TuCache TU) (tu : TU) (later : Stat) (after' : Stat) (parser' : ParserFn TU) (m : ℤ)
        → IsValid c
        → get_or_parse host before after file build flags parser c ≡ (c', ok (tu, false))
        → after (host.realpath file) ≡ some m
        → later (host.realpath file) ≡ some m
        → (get_or_parse host later after' file build flags parser' c').1 ≡ ok (tu, true)
    unfolding new_entry
    parsed_then_hit c' tu later after' parser' m v h there still =
        let key = make_key host file build flags in
        let path = host.realpath file in
        let entry = new_entry tu (after path) flags path in
        let stored : get key c'.store ≡ some entry =
          rw (parsed-eq-insert c' tu h)
            (get-insert_self key entry _ (check-IsValid key (before path) c v)) in
        stored_is_found host later after' file build flags parser' c' entry stored
          (unfold current_mtime new_entry new_mtime in rw (still, there))
