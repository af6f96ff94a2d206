-- ===== src/Cache/Threads/Entries.antt =====
-- A property of all entries of the cache (src/cpp_mcp/core/tu_cache.py) through its operations.
use cpp_mcp.Base.{
  ℕ, zero, suc, List, [], ◌∷◌, some, ◌≡◌, subst, arith, All, All-append, drop, keep, Bool,
  Bool-cases, inl, inr, ◌≟◌,
}
use cpp_mcp.OrderedDict.{get, delete, touch}
use cpp_mcp.Cache.Keys.{CacheKey, key_eq, key_beq_iff}
use cpp_mcp.Cache.{CacheEntry}

module _ {ℓ} {A : Type ℓ} where
  pub All-drop {κ} : (P : A → Type κ) (n : ℕ) (xs : List A) → All P xs → All P (drop n xs)
  All-drop P zero xs h = h
  All-drop P (suc n) [] h = h
  All-drop P (suc n) (x ∷ xs) h = All-drop P n xs h.1

  pub All-keep {κ} : (P : A → Type κ) (p : A → Bool) (xs : List A) → All P xs → All P (keep p xs)
  All-keep P p [] h = tt
  All-keep P p (x ∷ xs) h = elim (Bool-cases (p x)) [
    | inl e ↦ rw e (h.0, All-keep P p xs h.1)
    | inr e ↦ rw e (All-keep P p xs h.1)
  ]

module _ {TU : Type 0} (P : CacheKey × CacheEntry TU → Type 0) where
  pub All-delete :
      (key : CacheKey) (store : List (CacheKey × CacheEntry TU))
      → All P store
      → All P (delete key store)
  unfolding delete
  All-delete key [] h = tt
  All-delete key ((k, e) ∷ store) h = elim (Bool-cases (k ≟ key)) [
    | inl same ↦ rw same h.1
    | inr other ↦ rw other (h.0, All-delete key store h.1)
  ]

  pub All-touch :
      (key : CacheKey) (entry : CacheEntry TU) (store : List (CacheKey × CacheEntry TU))
      → P (key, entry)
      → All P store
      → All P (touch key entry store)
  All-touch key entry store p h =
      All-append P (delete key store) ((key, entry) ∷ []) (All-delete key store h) (p, tt)

  pub All-get :
      (key : CacheKey) (entry : CacheEntry TU) (store : List (CacheKey × CacheEntry TU))
      → get key store ≡ some entry
      → All P store
      → P (key, entry)
  unfolding get
  All-get key entry [] g h = absurd (ground arith)
  All-get key entry ((k, e) ∷ store) g h = elim (Bool-cases (k ≟ key)) [
    | inl same ↦
        let item : ◌≡◌ {A = CacheKey × CacheEntry TU} (k, e) (key, entry) =
          ground (arith, key_beq_iff k key) in
        subst P item h.0
    | inr other ↦ All-get key entry store (ground (arith, other)) h.1
  ]
