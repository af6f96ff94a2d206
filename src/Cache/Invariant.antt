-- ===== src/Cache/Invariant.antt =====
-- The invariant of the cache (src/cpp_mcp/core/tu_cache.py), and the operations one by one.
use cpp_mcp.Base.{
  ℕ, zero, suc, ◌+◌, ◌-◌, ◌≤◌, ◌<◌, Text, List, [], ◌∷◌, Option, none, some, ◌≡◌, refl, arith,
  length, ℤ, Bool-cases, Option-cases, inl, inr, true, false, leb, drop, length-drop, eqz, eqz_iff,
  pos, ◌≢◌,
}
use cpp_mcp.Errors.{ExceptionType, ok, raise, Result-cases}
use cpp_mcp.OrderedDict.{get, delete, IsDistinct, touch}
use cpp_mcp.OrderedDict.Laws.{
  move_to_end-eq-touch, move_to_end-set_item, IsDistinct-touch, IsDistinct-delete, length-touch,
  length-delete, length-delete-le,
}
use cpp_mcp.Cache.Keys.{CacheKey, key_eq, Host, make_key}
use cpp_mcp.Cache.{
  CacheEntry, TuCache, Stat, ParserFn, init, current_mtime, check, make_room, insert, get_or_parse,
  remove_all, invalidated, invalidate, clear, new_entry,
}

pub record IsValid {TU : Type 0} (c : TuCache TU) : Type 0 where
  pub positive : 0 < c.capacity
  pub bounded : length c.store ≤ c.capacity
  pub distinct : IsDistinct c.store

module _ {TU : Type 0} where
  -- The loop drops the oldest items, as many as are needed for one more to fit.
  pub make_room-eq-drop :
      (capacity : ℕ) (store : List (CacheKey × CacheEntry TU))
      → 0 < capacity
      → ((make_room capacity store).0 ≡ drop (suc (length store) - capacity) store)
        × ((make_room capacity store).1 ≡ suc (length store) - capacity)
  unfolding make_room
  make_room-eq-drop capacity [] h = let e : 1 - capacity ≡ 0 = omega arith in (rw e, rw e)
  make_room-eq-drop capacity (item ∷ store) h =
      elim (Bool-cases (leb capacity (length (item ∷ store)))) [
        | inl full ↦
            let e : suc (length (item ∷ store)) - capacity ≡ suc (suc (length store) - capacity) =
              ground arith in
            rw full (
              rw e (
                (make_room-eq-drop capacity store h).0,
                ground (arith, (make_room-eq-drop capacity store h).1),
              ))
        | inr fits ↦
            let e : suc (length (item ∷ store)) - capacity ≡ 0 = ground arith in
            rw fits (rw e (refl, refl))
      ]

  pub insert_store :
      (key : CacheKey) (entry : CacheEntry TU) (c : TuCache TU)
      → 0 < c.capacity
      → (insert key entry c).store
        ≡ touch key entry (drop (suc (length c.store) - c.capacity) c.store)
  unfolding insert
  insert_store key entry c h = rw (move_to_end-set_item, (make_room-eq-drop c.capacity c.store h).0)

  pub insert_evictions :
      (key : CacheKey) (entry : CacheEntry TU) (c : TuCache TU)
      → 0 < c.capacity
      → (insert key entry c).evictions ≡ c.evictions + (suc (length c.store) - c.capacity)
  unfolding insert
  insert_evictions key entry c h = rw ((make_room-eq-drop c.capacity c.store h).1)

  pub get-drop :
      (n : ℕ) (key : CacheKey) (store : List (CacheKey × CacheEntry TU))
      → get key store ≡ none
      → get key (drop n store) ≡ none
  unfolding get
  get-drop zero key store h = h
  get-drop (suc n) key [] h = refl
  get-drop (suc n) key ((k, e) ∷ store) h = get-drop n key store (ground arith)

  pub IsDistinct-drop :
      (n : ℕ) (store : List (CacheKey × CacheEntry TU))
      → IsDistinct store
      → IsDistinct (drop n store)
  IsDistinct-drop zero store d = d
  IsDistinct-drop (suc n) [] d = d
  IsDistinct-drop (suc n) ((k, e) ∷ store) d = IsDistinct-drop n store d.1

  pub insert-IsValid :
      (key : CacheKey) (entry : CacheEntry TU) (c : TuCache TU)
      → IsValid c
      → IsValid (insert key entry c)
  insert-IsValid key entry c v =
      let kept = drop (suc (length c.store) - c.capacity) c.store in
      record {
        positive = unfold insert in v.positive;
        bounded = rw (insert_store key entry c v.positive) (
            unfold insert in
            omega (
              arith,
              length-touch key entry kept,
              length-delete-le key kept,
              length-drop (suc (length c.store) - c.capacity) c.store,
              v.positive,
              v.bounded,
            ));
        distinct =
            rw (insert_store key entry c v.positive)
              (IsDistinct-touch key entry kept (IsDistinct-drop _ c.store v.distinct));
      }

  -- What the first section does, by what it finds.
  pub data Checked (key : CacheKey) (stat : Option ℤ) (c : TuCache TU) : Type 0 where
    missed :
        get key c.store ≡ none
        → check key stat c ≡ (record c { misses = c.misses + 1 }, none)
        → Checked key stat c
    hit :
        (entry : CacheEntry TU)
        → get key c.store ≡ some entry
        → current_mtime stat ≡ entry.source_mtime_ns
        → check key stat c
          ≡ (record c { store = touch key entry c.store; hits = c.hits + 1 }, some entry.tu)
        → Checked key stat c
    stale :
        (entry : CacheEntry TU)
        → get key c.store ≡ some entry
        → current_mtime stat ≢ entry.source_mtime_ns
        → check key stat c ≡ (
          record c {
            store = delete key c.store;
            evictions = c.evictions + 1;
            misses = c.misses + 1;
          },
          none,
        )
        → Checked key stat c

  pub check_cases : (key : CacheKey) (stat : Option ℤ) (c : TuCache TU) → Checked key stat c
  unfolding check
  check_cases key stat c = elim (Option-cases (get key c.store)) [
    | inl none_found ↦ missed none_found (rw (none_found, check))
    | inr (entry, found) ↦ elim (Bool-cases (eqz (current_mtime stat) entry.source_mtime_ns)) [
      | inl fresh ↦
          hit entry found ((eqz_iff _ _).0 fresh)
            (rw (found, check, fresh, move_to_end-eq-touch key entry c.store found))
      | inr old ↦ stale entry found (λ e. cc (old, (eqz_iff _ _).1 e)) (rw (found, check, old))
    ]
  ]

  pub check-IsValid :
      (key : CacheKey) (stat : Option ℤ) (c : TuCache TU) → IsValid c → IsValid (check key stat c).0
  check-IsValid key stat c v = elim (check_cases key stat c) [
    | missed _ e ↦
        rw e (record { positive = v.positive; bounded = v.bounded; distinct = v.distinct })
    | hit entry found _ e ↦ rw e (record {
      positive = v.positive;
      bounded =
          omega (
            arith,
            v.bounded,
            length-touch key entry c.store,
            length-delete key entry c.store found,
          );
      distinct = IsDistinct-touch key entry c.store v.distinct;
    })
    | stale entry _ _ e ↦ rw e (record {
      positive = v.positive;
      bounded = omega (arith, v.bounded, length-delete-le key c.store);
      distinct = IsDistinct-delete key c.store v.distinct;
    })
  ]

  remove_all-IsValid :
      (keys : List CacheKey) (c : TuCache TU) → IsValid c → IsValid (remove_all keys c)
  unfolding remove_all
  remove_all-IsValid [] c v = v
  remove_all-IsValid (key ∷ keys) c v =
      remove_all-IsValid keys (record c { store = delete key c.store; evictions = c.evictions + 1 })
        (record {
          positive = v.positive;
          bounded = omega (arith, v.bounded, length-delete-le key c.store);
          distinct = IsDistinct-delete key c.store v.distinct;
        })

  pub invalidate-IsValid :
      (host : Host) (file : Text) (build : Option Text) (c : TuCache TU)
      → IsValid c
      → IsValid (invalidate host file build c).0
  unfolding invalidate
  invalidate-IsValid host file build c v = remove_all-IsValid (invalidated host file build c) c v

  pub clear-IsValid : (c : TuCache TU) → IsValid c → IsValid (clear c)
  unfolding clear
  clear-IsValid c v = record { positive = v.positive; bounded = omega arith; distinct = tt }

  pub init-IsValid : (capacity : ℤ) (c : TuCache TU) → init capacity ≡ ok c → IsValid c
  unfolding init
  init-IsValid (pos (suc n)) c h = ground arith
  init-IsValid _ c h = ground arith

  -- What a whole lookup does, by what the first section finds and how the parser ends.
  module _ (host : Host) (before after : Stat) (file : Text) (build : Option Text)
      (flags : List Text) (parser : ParserFn TU) (c : TuCache TU) where
    abbrev key : CacheKey
    key = make_key host file build flags

    abbrev path : Text
    path = host.realpath file

    pub get_or_parse_found :
        (tu : TU)
        → (check key (before path) c).1 ≡ some tu
        → get_or_parse host before after file build flags parser c
          ≡ ((check key (before path) c).0, ok (tu, true))
    unfolding get_or_parse
    get_or_parse_found tu h = ground arith

    pub get_or_parse_parsed :
        (tu : TU)
        → (check key (before path) c).1 ≡ none
        → parser path flags ≡ ok tu
        → get_or_parse host before after file build flags parser c ≡ (
          insert key (new_entry tu (after path) flags path) (check key (before path) c).0,
          ok (tu, false),
        )
    unfolding get_or_parse
    get_or_parse_parsed tu h p = ground arith

    pub get_or_parse_raised :
        (e : ExceptionType)
        → (check key (before path) c).1 ≡ none
        → parser path flags ≡ raise e
        → get_or_parse host before after file build flags parser c
          ≡ ((check key (before path) c).0, raise e)
    unfolding get_or_parse
    get_or_parse_raised e h p = ground arith

    -- Every lookup, whatever it finds and however the parser ends, keeps the capacity and the
    -- distinct keys.
    pub get_or_parse-IsValid :
        IsValid c → IsValid (get_or_parse host before after file build flags parser c).0
    get_or_parse-IsValid v =
        let v' = check-IsValid key (before path) c v in
        elim (Option-cases (check key (before path) c).1) [
          | inr (tu, found) ↦ rw (get_or_parse_found tu found) v'
          | inl miss ↦ elim (Result-cases (parser path flags)) [
            | inl (tu, p) ↦ rw (get_or_parse_parsed tu miss p) (insert-IsValid key _ _ v')
            | inr (e, p) ↦ rw (get_or_parse_raised e miss p) v'
          ]
        ]
