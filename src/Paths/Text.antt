-- ===== src/Paths/Text.antt =====
-- Paths as texts of code points, and what src/cpp_mcp/core/path_guard.py uses of `os.path` and
-- `pathlib` on POSIX.
use cpp_mcp.Base.{
  ℕ, Text, Bool, true, false, not, List, [], ◌∷◌, ◌++◌, ◌==◌, ◌≟◌, list_eq, nat_eq, if◌then◌else◌,
  keep, ◌≡◌, refl, ap, ◌∙◌, All, Option, none, some, list_beq_iff, Bool-cases, inl, inr, ◌↔◌,
}

abbrev pub sep : ℕ
sep = b'/'

abbrev pub push : ℕ → List Text → List Text
push c [] = (c ∷ []) ∷ []
push c (w ∷ ws) = (c ∷ w) ∷ ws

-- `path.split("/")`
unfoldable pub split : Text → List Text
split [] = [] ∷ []
split (c ∷ s) = let rest = split s in if c == sep then [] ∷ rest else push c rest

-- `"/".join(parts)`
unfoldable pub join : List Text → Text
join [] = []
join (w ∷ []) = w
join (w ∷ v ∷ ws) = w ++ (sep ∷ join (v ∷ ws))

-- Neither empty nor `"."`.
abbrev pub is_part : Text → Bool
is_part [] = false
is_part (c ∷ []) = not (c == b'.')
is_part (c ∷ d ∷ s) = true

-- The components that `PurePath` and `commonpath` keep.
unfoldable pub parts : Text → List Text
unfolding split
parts s = keep is_part (split s)

abbrev pub isabs : Text → Bool
isabs [] = false
isabs (c ∷ s) = c == sep

unfoldable pub common_prefix : List Text → List Text → List Text
common_prefix [] ys = []
common_prefix (x ∷ xs) [] = []
common_prefix (x ∷ xs) (y ∷ ys) = if x ≟ y then x ∷ common_prefix xs ys else []

-- `os.path.commonpath([a, b])`; `none` is its ValueError, for an absolute and a relative path.
unfoldable pub commonpath : Text → Text → Option Text
unfolding parts common_prefix join
commonpath a b =
    let common = join (common_prefix (parts a) (parts b)) in
    if isabs a
    then if isabs b then some (sep ∷ common) else none
    else if isabs b
    then none
    else some common

-- A component of a normal path: no separator in it, not empty and not `"."`.
pub record IsComponent (w : Text) : Type 0 where
  pub part : is_part w ≡ true
  pub no_sep : All (λ c. (c == sep) ≡ false) w

-- The absolute path with these components.
abbrev pub absolute : List Text → Text
absolute ws = sep ∷ join ws

split_word : (w : Text) → All (λ c. (c == sep) ≡ false) w → split w ≡ w ∷ []
unfolding split
split_word [] h = refl
split_word (c ∷ w) h = rw (h.0, split_word w h.1) refl

split-append : (w s : Text) → All (λ c. (c == sep) ≡ false) w → split (w ++ (sep ∷ s)) ≡ w ∷ split s
unfolding split
split-append [] s h = refl
split-append (c ∷ w) s h = rw (h.0, split-append w s h.1) refl

pub split-join :
    (w : Text) (ws : List Text) → All IsComponent (w ∷ ws) → split (join (w ∷ ws)) ≡ w ∷ ws
unfolding join
split-join w [] h = split_word w h.0.no_sep
split-join w (v ∷ ws) h =
    split-append w (join (v ∷ ws)) h.0.no_sep ∙ ap (λ l. w ∷ l) (split-join v ws h.1)

pub keep_components : (ws : List Text) → All IsComponent ws → keep is_part ws ≡ ws
keep_components [] h = refl
keep_components (w ∷ ws) h = rw (h.0.part, keep_components ws h.1) refl

-- The components of a normal absolute path can be read back from its text.
pub parts-absolute : (ws : List Text) → All IsComponent ws → parts (absolute ws) ≡ ws
unfolding parts
parts-absolute [] h = unfold join in refl
parts-absolute (w ∷ ws) h = rw (split-join w ws h) (keep_components (w ∷ ws) h)

pub common_prefix-IsComponent :
    (xs ys : List Text) → All IsComponent xs → All IsComponent (common_prefix xs ys)
unfolding common_prefix
common_prefix-IsComponent [] ys h = tt
common_prefix-IsComponent (x ∷ xs) [] h = tt
common_prefix-IsComponent (x ∷ xs) (y ∷ ys) h = elim (Bool-cases (x ≟ y)) [
  | inl e ↦ rw e (h.0, common_prefix-IsComponent xs ys h.1)
  | inr e ↦ rw e tt
]

-- The common components are all of the second list exactly when the first list begins with it.
pub common_prefix-all :
    (xs ys : List Text) → (common_prefix xs ys ≡ ys) ↔ ((zs : List Text) × (xs ≡ ys ++ zs))
unfolding common_prefix
common_prefix-all [] [] = ((λ _. ([], refl)), λ _. refl)
common_prefix-all [] (y ∷ ys) = ((λ h. absurd (cc h)), λ h. absurd (cc (h.1)))
common_prefix-all (x ∷ xs) [] = ((λ _. (x ∷ xs, refl)), λ _. refl)
common_prefix-all (x ∷ xs) (y ∷ ys) = elim (Bool-cases (x ≟ y)) [
  | inl e ↦
      let same : x ≡ y = (list_beq_iff x y).0 e in
      let rest = common_prefix-all xs ys in
      rw e (
        (λ h. let (zs, q) = rest.0 (cc h) in (zs, cc (same, q))),
        (λ h. cc (same, rest.1 (h.0, cc (h.1)))),
      )
  | inr e ↦ rw e (
    (λ h. absurd (cc h)),
    (λ h. let same : x ≡ y = cc (h.1) in absurd (cc (e, (list_beq_iff x y).1 same))),
  )
]
