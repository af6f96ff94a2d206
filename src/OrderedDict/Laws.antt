-- ===== src/OrderedDict/Laws.antt =====
-- Laws of `OrderedDict`: what can be read after each operation, and distinct keys.
use cpp_mcp.Base.{
  List, [], ◌∷◌, ◌++◌, Option, none, some, Eq, ◌≟◌, if◌then◌else◌, ◌≡◌, refl, length, arith, ◌∙◌,
  ◌+◌, ◌≤◌, Bool-cases, inl, inr, false, beq_refl, length-append,
}
use cpp_mcp.OrderedDict.{get, delete, move_to_end, set_item, IsDistinct, touch}

module _ {ℓ} {K V : Type ℓ} ⦃e : Eq K⦄ where
  pub get-append :
      (k : K) (l m : List (K × V))
      → get k (l ++ m) ≡ (let r : Option V = get k l in elim r [ none ↦ get k m | some v ↦ some v ])
  unfolding get
  get-append k [] m = refl
  get-append k ((j, v) ∷ l) m = ground (arith, get-append k l m)

  pub get-delete_ne : (k j : K) (l : List (K × V)) → (k ≟ j) ≡ false → get j (delete k l) ≡ get j l
  unfolding get delete
  get-delete_ne k j [] h = refl
  get-delete_ne k j ((i, v) ∷ l) h =
      ground (arith, get-delete_ne k j l h, e.beq_iff i k, e.beq_iff i j, e.beq_iff k j)

  pub get-delete_self : (k : K) (l : List (K × V)) → IsDistinct l → get k (delete k l) ≡ none
  unfolding get delete
  get-delete_self k [] d = refl
  get-delete_self k ((i, v) ∷ l) d = ground (arith, get-delete_self k l d.1, e.beq_iff i k, d.0)

  get-singleton : (k j : K) (v : V) → get j ((k, v) ∷ []) ≡ (if k ≟ j then some v else none)
  unfolding get
  get-singleton k j v = refl

  pub get-touch :
      (k j : K) (v : V) (l : List (K × V))
      → IsDistinct l
      → get j (touch k v l) ≡ (if k ≟ j then some v else get j l)
  get-touch k j v l d = ground (
    arith,
    get-append j (delete k l) ((k, v) ∷ []),
    get-delete_ne k j l,
    get-delete_self k l d,
    e.beq_iff k j,
    get-singleton k j v,
  )

  pub delete-head : (k : K) (v : V) (l : List (K × V)) → delete k ((k, v) ∷ l) ≡ l
  unfolding delete
  delete-head k v l = ground (arith, beq_refl k)

  pub delete_absent : (k : K) (l : List (K × V)) → get k l ≡ none → delete k l ≡ l
  unfolding get delete
  delete_absent k [] h = refl
  delete_absent k ((j, v) ∷ l) h = ground (arith, delete_absent k l)

  pub move_to_end-eq-touch :
      (k : K) (v : V) (l : List (K × V)) → get k l ≡ some v → move_to_end k l ≡ touch k v l
  unfolding get delete move_to_end
  move_to_end-eq-touch k v [] h = ground arith
  move_to_end-eq-touch k v ((j, w) ∷ l) h =
      ground (arith, e.beq_iff j k, move_to_end-eq-touch k v l)

  pub move_to_end-set_item :
      (k : K) (v : V) (l : List (K × V)) → move_to_end k (set_item k v l) ≡ touch k v l
  unfolding delete move_to_end set_item
  move_to_end-set_item k v [] = rw (beq_refl k)
  move_to_end-set_item k v ((j, w) ∷ l) = ground (arith, e.beq_iff j k, move_to_end-set_item k v l)

  pub IsDistinct-delete : (k : K) (l : List (K × V)) → IsDistinct l → IsDistinct (delete k l)
  unfolding delete
  IsDistinct-delete k [] d = tt
  IsDistinct-delete k ((j, v) ∷ l) d = elim (Bool-cases (j ≟ k)) [
    | inl same ↦ rw same d.1
    | inr other ↦ rw other (
      (elim (Bool-cases (k ≟ j)) [
        | inl e' ↦ absurd (ground (arith, e.beq_iff k j, e.beq_iff j k))
        | inr ne ↦ get-delete_ne k j l ne ∙ d.0
      ]),
      IsDistinct-delete k l d.1,
    )
  ]

  IsDistinct-append_one :
      (k : K) (v : V) (l : List (K × V))
      → IsDistinct l
      → get k l ≡ none
      → IsDistinct (l ++ (k, v) ∷ [])
  unfolding get
  IsDistinct-append_one k v [] d h = (refl, tt)
  IsDistinct-append_one k v ((j, w) ∷ l) d h = (
    ground (
      arith,
      get-append j l ((k, v) ∷ []),
      get-singleton k j v,
      e.beq_iff j k,
      e.beq_iff k j,
      d.0,
    ),
    IsDistinct-append_one k v l d.1 (ground arith),
  )

  pub IsDistinct-touch :
      (k : K) (v : V) (l : List (K × V)) → IsDistinct l → IsDistinct (touch k v l)
  IsDistinct-touch k v l d =
      IsDistinct-append_one k v (delete k l) (IsDistinct-delete k l d) (get-delete_self k l d)

  pub length-delete :
      (k : K) (v : V) (l : List (K × V)) → get k l ≡ some v → length (delete k l) + 1 ≡ length l
  unfolding get delete
  length-delete k v [] h = ground arith
  length-delete k v ((j, w) ∷ l) h = ground (arith, length-delete k v l)

  pub length-delete-le : (k : K) (l : List (K × V)) → length (delete k l) ≤ length l
  unfolding delete
  length-delete-le k [] = omega arith
  length-delete-le k ((j, w) ∷ l) = ground (arith, length-delete-le k l)

  pub length-touch :
      (k : K) (v : V) (l : List (K × V)) → length (touch k v l) ≡ length (delete k l) + 1
  length-touch k v l = omega (arith, length-append (delete k l) ((k, v) ∷ []))
