-- ===== src/Paths/Roots.antt =====
-- Which paths the allowed roots admit (src/cpp_mcp/core/path_guard.py).
use cpp_mcp.Base.{
  ℕ, Text, Bool, true, false, List, [], ◌∷◌, ◌++◌, ◌==◌, list_eq, nat_eq, if◌then◌else◌, elem, keep,
  All, some, ◌≡◌, ◌≢◌, ◌↔◌, refl, ap, sym, ◌∙◌, arith, Bool-cases, inl, inr, list_beq_iff, beq_refl,
  Option-cases, ◌⊎◌,
}
use mathlib.Core.Option.{some-injective}
use cpp_mcp.Errors.{ok}
use cpp_mcp.Paths.Text.{
  sep, push, split, join, is_part, parts, isabs, common_prefix, commonpath, IsComponent, absolute,
  split-join, keep_components, parts-absolute, common_prefix-IsComponent, common_prefix-all,
}
use cpp_mcp.Paths.Guard.{
  FileSystem, Kind, file, has_dotdot, under_root, under_any_root, validate_path,
}

-- The path written again from its components.
abbrev pub normal : Text → Text
normal p = if isabs p then absolute (parts p) else join (parts p)

-- Both paths are absolute or both relative, the root is written in its normal form, and the path
-- has the root's components first.
pub record Inside (path root : Text) : Type 0 where
  pub same_kind : isabs path ≡ isabs root
  pub is_normal : normal root ≡ root
  pub below : (zs : List Text) × (parts path ≡ parts root ++ zs)

push-no_sep :
    (c : ℕ) (ws : List Text)
    → (c == sep) ≡ false
    → All (λ w. All (λ d. (d == sep) ≡ false) w) ws
    → All (λ w. All (λ d. (d == sep) ≡ false) w) (push c ws)
push-no_sep c [] h a = ((h, tt), tt)
push-no_sep c (w ∷ ws) h a = ((h, a.0), a.1)

split-no_sep : (s : Text) → All (λ w. All (λ d. (d == sep) ≡ false) w) (split s)
unfolding split
split-no_sep [] = (tt, tt)
split-no_sep (c ∷ s) = elim (Bool-cases (c == sep)) [
  | inl e ↦ rw e (tt, split-no_sep s)
  | inr e ↦ rw e (push-no_sep c (split s) e (split-no_sep s))
]

keep-IsComponent :
    (ws : List Text)
    → All (λ w. All (λ d. (d == sep) ≡ false) w) ws
    → All IsComponent (keep is_part ws)
keep-IsComponent [] h = tt
keep-IsComponent (w ∷ ws) h = elim (Bool-cases (is_part w)) [
  | inl e ↦ rw e (record { part = e; no_sep = h.0 }, keep-IsComponent ws h.1)
  | inr e ↦ rw e (keep-IsComponent ws h.1)
]

pub parts-IsComponent : (s : Text) → All IsComponent (parts s)
unfolding parts
parts-IsComponent s = keep-IsComponent (split s) (split-no_sep s)

parts-join : (ws : List Text) → All IsComponent ws → parts (join ws) ≡ ws
unfolding parts
parts-join [] h = unfold join in refl
parts-join (w ∷ ws) h = rw (split-join w ws h) (keep_components (w ∷ ws) h)

commonpath_cases :
    (a b : Text)
    → isabs a ≡ isabs b
    → commonpath a b
      ≡ some (
          if isabs b
          then absolute (common_prefix (parts a) (parts b))
          else join (common_prefix (parts a) (parts b)))
unfolding commonpath
commonpath_cases a b h = ground arith

commonpath_kind : (a b c : Text) → commonpath a b ≡ some c → isabs a ≡ isabs b
unfolding commonpath
commonpath_kind a b c h = ground arith

-- The text of components can be read back, in either kind of path.
parts-of_kind :
    (b : Bool) (ws : List Text)
    → All IsComponent ws
    → parts (if b then absolute ws else join ws) ≡ ws
parts-of_kind true ws h = parts-absolute ws h
parts-of_kind false ws h = parts-join ws h

under-Inside : (path root : Text) → under_root path root ≡ true → Inside path root
unfolding under_root
under-Inside path root h = elim (Option-cases (commonpath path root)) [
  | inl mixed ↦ absurd (ground (arith, mixed))
  | inr (common, found) ↦
      let kind = commonpath_kind path root common found in
      let ws = common_prefix (parts path) (parts root) in
      let comps = common_prefix-IsComponent (parts path) (parts root) (parts-IsComponent path) in
      let same : common ≡ root = (list_beq_iff common root).0 (ground (arith, found)) in
      let text : (if isabs root then absolute ws else join ws) ≡ root =
        some-injective _ _ (sym (commonpath_cases path root kind) ∙ found) ∙ same in
      let whole : ws ≡ parts root = sym (parts-of_kind (isabs root) ws comps) ∙ ap parts text in
      record {
        same_kind = kind;
        is_normal = ap (λ l. if isabs root then absolute l else join l) (sym whole) ∙ text;
        below = (common_prefix-all (parts path) (parts root)).0 whole;
      }
]

Inside-under : (path root : Text) → Inside path root → under_root path root ≡ true
unfolding under_root
Inside-under path root i =
    let whole = (common_prefix-all (parts path) (parts root)).1 i.below in
    let found : commonpath path root ≡ some root =
      commonpath_cases path root i.same_kind
      ∙ ap (λ (l : List Text). some (if isabs root then absolute l else join l)) whole
      ∙ ap some i.is_normal in
    rw (found, under_root) (beq_refl root)

-- The test of a root admits exactly the paths inside it.
pub under_root_iff : (path root : Text) → (under_root path root ≡ true) ↔ Inside path root
under_root_iff path root = (under-Inside path root, Inside-under path root)

pub under_any-Inside :
    (path : Text) (roots : List Text)
    → under_any_root path roots ≡ true
    → (root : Text) × (elem root roots ≡ true) × Inside path root
unfolding under_any_root
under_any-Inside path [] h = absurd (cc h)
under_any-Inside path (root ∷ roots) h = elim (Bool-cases (under_root path root)) [
  | inl e ↦ (root, ground (arith, beq_refl root), under-Inside path root e)
  | inr e ↦
      let (found, member, inside) = under_any-Inside path roots (ground (arith, e)) in
      (found, ground (arith, member), inside)
]

-- A path is accepted only as its real path, only without a `..` segment, only inside an allowed
-- root, only if it exists, and as a directory only if it is no regular file.
pub validate_path_safe :
    (fs : FileSystem) (raw : Text) (roots : List Text) (kind : Kind) (p : Text)
    → validate_path fs raw roots kind ≡ ok p
    → (p ≡ fs.realpath raw)
      × (has_dotdot raw ≡ false)
      × ((root : Text) × (elem root roots ≡ true) × Inside p root)
      × (fs.exists p ≡ true)
      × ((kind ≡ file) ⊎ (fs.is_file p ≡ false))
unfolding validate_path
validate_path_safe fs raw roots kind p h =
    let real : p ≡ fs.realpath raw = ground arith in
    (
      real,
      ground arith,
      rw real (under_any-Inside (fs.realpath raw) roots (ground arith)),
      rw real (ground arith),
      rw real (ground arith),
    )

-- The last character of a text is a separator.
ends_sep : Text → Bool
ends_sep [] = false
ends_sep (c ∷ []) = c == sep
ends_sep (c ∷ d ∷ s) = ends_sep (d ∷ s)

ends_sep-append : (q : Text) → ends_sep (q ++ sep ∷ []) ≡ true
unfolding ends_sep
ends_sep-append [] = refl
ends_sep-append (c ∷ []) = refl
ends_sep-append (c ∷ d ∷ q) = ends_sep-append (d ∷ q)

ends_sep-word : (w : Text) → All (λ c. (c == sep) ≡ false) w → ends_sep w ≡ false
unfolding ends_sep
ends_sep-word [] h = refl
ends_sep-word (c ∷ []) h = h.0
ends_sep-word (c ∷ d ∷ w) h = ends_sep-word (d ∷ w) h.1

ends_sep-tail : (w : Text) (c : ℕ) (t : Text) → ends_sep (w ++ (c ∷ t)) ≡ ends_sep (c ∷ t)
unfolding ends_sep
ends_sep-tail [] c t = refl
ends_sep-tail (a ∷ []) c t = refl
ends_sep-tail (a ∷ b ∷ w) c t = ends_sep-tail (b ∷ w) c t

join_cons :
    (w : Text) (ws : List Text) → is_part w ≡ true → (c : ℕ) × (s : Text) × (join (w ∷ ws) ≡ c ∷ s)
unfolding join
join_cons [] ws h = absurd (cc h)
join_cons (c ∷ w) [] h = (c, w, refl)
join_cons (c ∷ w) (v ∷ ws) h = (c, w ++ (sep ∷ join (v ∷ ws)), refl)

ends_sep-sep :
    (w : Text) (ws : List Text)
    → is_part w ≡ true
    → ends_sep (sep ∷ join (w ∷ ws)) ≡ ends_sep (join (w ∷ ws))
ends_sep-sep w ws h = let (c, s, e) = join_cons w ws h in rw e (unfold ends_sep in refl)

ends_sep-join : (ws : List Text) → All IsComponent ws → ends_sep (join ws) ≡ false
unfolding join
ends_sep-join [] h = unfold ends_sep in refl
ends_sep-join (w ∷ []) h = ends_sep-word w h.0.no_sep
ends_sep-join (w ∷ v ∷ ws) h =
    ends_sep-tail w sep (join (v ∷ ws)) ∙ ends_sep-sep v ws h.1.0.part ∙ ends_sep-join (v ∷ ws) h.1

ends_sep-absolute :
    (ws : List Text) → All IsComponent ws → ends_sep (absolute ws) ≡ true → absolute ws ≡ sep ∷ []
ends_sep-absolute [] h e = unfold join in refl
ends_sep-absolute (w ∷ ws) h e =
    absurd (cc (e, ends_sep-sep w ws h.0.part, ends_sep-join (w ∷ ws) h))

single : (q : Text) (c : ℕ) → c ∷ [] ≡ q ++ c ∷ [] → q ≡ []
single [] c h = refl
single (a ∷ []) c h = absurd (cc h)
single (a ∷ b ∷ q) c h = absurd (cc h)

normal_with_sep : (q : Text) → normal (q ++ sep ∷ []) ≡ q ++ sep ∷ [] → q ≡ []
normal_with_sep q h = go (isabs (q ++ sep ∷ [])) h
  where
    ws : List Text
    ws = parts (q ++ sep ∷ [])

    go : (b : Bool) → (if b then absolute ws else join ws) ≡ q ++ sep ∷ [] → q ≡ []
    go true e = single q sep (
        sym (
          ends_sep-absolute ws (parts-IsComponent (q ++ sep ∷ []))
            (ap ends_sep e ∙ ends_sep-append q))
        ∙ e)
    go false e =
        absurd (cc (e, ends_sep-append q, ends_sep-join ws (parts-IsComponent (q ++ sep ∷ []))))

-- A root other than "/" that is configured with a trailing separator admits no path at all.
pub trailing_separator_admits_nothing :
    (path q : Text) → q ≢ [] → under_root path (q ++ sep ∷ []) ≡ false
trailing_separator_admits_nothing path q h = elim (Bool-cases (under_root path (q ++ sep ∷ []))) [
  | inr e ↦ e
  | inl e ↦ absurd (h (normal_with_sep q (under-Inside path (q ++ sep ∷ []) e).is_normal))
]
