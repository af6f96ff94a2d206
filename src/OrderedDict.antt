-- ===== src/OrderedDict.antt =====
-- Python's `collections.OrderedDict`, as src/cpp_mcp/core/tu_cache.py uses it: a list of items,
-- the oldest first, over keys with an equality. The laws are in the module below.
pub mod Laws
use cpp_mcp.Base.{List, [], ◌∷◌, ◌++◌, Option, none, some, Eq, ◌≟◌, if◌then◌else◌, ◌≡◌}

module _ {ℓ} {K V : Type ℓ} ⦃e : Eq K⦄ where
  -- `d.get(k)`
  unfoldable pub get : K → List (K × V) → Option V
  get k [] = none
  get k ((j, v) ∷ l) = if j ≟ k then some v else get k l

  -- `del d[k]`, for a key that is present
  unfoldable pub delete : K → List (K × V) → List (K × V)
  delete k [] = []
  delete k ((j, v) ∷ l) = if j ≟ k then l else (j, v) ∷ delete k l

  -- `d.move_to_end(k)`, for a key that is present
  unfoldable pub move_to_end : K → List (K × V) → List (K × V)
  move_to_end k [] = []
  move_to_end k ((j, v) ∷ l) = if j ≟ k then l ++ (j, v) ∷ [] else (j, v) ∷ move_to_end k l

  -- `d[k] = v`: a key that is present keeps its place, a new one comes last
  unfoldable pub set_item : K → V → List (K × V) → List (K × V)
  set_item k v [] = (k, v) ∷ []
  set_item k v ((j, w) ∷ l) = if j ≟ k then (j, v) ∷ l else (j, w) ∷ set_item k v l

  -- No key occurs twice.
  abbrev pub IsDistinct : List (K × V) → Type ℓ
  IsDistinct [] = Unit
  IsDistinct ((k, v) ∷ l) = (get k l ≡ none) × IsDistinct l

  -- The items with a key removed and written again as the newest.
  abbrev pub touch : K → V → List (K × V) → List (K × V)
  touch k v l = delete k l ++ (k, v) ∷ []
