-- ===== src/Base/Distinct.antt =====
-- A list that is written to only where an item is not in it yet, and what it holds.
use mathlib.Core.Path.{◌≡◌, refl}
use mathlib.Core.Logic.{inl, inr}
use mathlib.Core.Bool.{false, ◌||◌}
use mathlib.Core.List.{List, [], ◌∷◌, ◌++◌}
use native.Mathlib.Omega.{arith}
use cpp_mcp.Base.Tests.{if◌then◌else◌, Bool-cases}
use cpp_mcp.Base.Equality.{Eq, elem}

module _ {ℓ} {A : Type ℓ} ⦃e : Eq A⦄ where
  -- No item occurs twice.
  abbrev pub IsNodup : List A → Type 0
  IsNodup [] = Unit
  IsNodup (x ∷ xs) = (elem x xs ≡ false) × IsNodup xs

  -- `if x not in xs: xs.append(x)`
  unfoldable pub add_new : A → List A → List A
  add_new x xs = if elem x xs then xs else xs ++ x ∷ []

  pub elem-append : (a : A) (xs ys : List A) → elem a (xs ++ ys) ≡ (elem a xs || elem a ys)
  elem-append a [] ys = refl
  elem-append a (x ∷ xs) ys = ground (arith, elem-append a xs ys)

  IsNodup-append_one :
      (x : A) (xs : List A) → elem x xs ≡ false → IsNodup xs → IsNodup (xs ++ x ∷ [])
  IsNodup-append_one x [] h d = (refl, tt)
  IsNodup-append_one x (y ∷ xs) h d = (
    ground (arith, elem-append y xs (x ∷ []), e.beq_iff x y, e.beq_iff y x, h, d.0),
    IsNodup-append_one x xs (ground (arith, h)) d.1,
  )

  pub elem-add_new : (a x : A) (xs : List A) → elem a (add_new x xs) ≡ (elem a xs || e.beq a x)
  unfolding add_new
  elem-add_new a x xs = ground (arith, elem-append a xs (x ∷ []), e.beq_iff a x, elem_same a x xs)
    where
      elem_same : (a x : A) (xs : List A) → a ≡ x → elem a xs ≡ elem x xs
      elem_same a x xs h = cc

  pub IsNodup-add_new : (x : A) (xs : List A) → IsNodup xs → IsNodup (add_new x xs)
  unfolding add_new
  IsNodup-add_new x xs d = elim (Bool-cases (elem x xs)) [
    | inl old ↦ rw old d
    | inr new ↦ rw new (IsNodup-append_one x xs new d)
  ]
