-- ===== src/Navigation/HeaderInfo/Orphans.antt =====
-- The orphaned inclusions of src/cpp_mcp/tools/get_header_info.py.
use cpp_mcp.Base.{
  Text, List, [], ◌∷◌, keep, elem, elem-append, any, any-Exists, Exists, Option, none, some, Bool,
  true, false, ◌&&◌, nat_eq, list_eq, list_beq_iff, ◌≡◌, ◌≢◌, ◌↔◌, refl, arith, inl, inr,
  Option-cases, Bool-cases,
}
use cpp_mcp.Navigation.Tree.{Tree, preorder}
use cpp_mcp.Navigation.Parsed.{Parsed}
use cpp_mcp.Navigation.HeaderInfo.{
  Cursor, HeaderUnit, usr_list, is_in, collect_usrs, collect_usrs_in_file,
  collect_usrs_in_main_file, none_used, is_orphaned, header_answer,
}

-- A cursor in a file, with a USR that is not empty by one of its accesses.
pub record HasUsr (access : Cursor → Option Text) (file : Text) (usr : Text) (c : Cursor)
    : Type 0 where
  pub in_file : c.file ≡ some file
  pub access_usr : access c ≡ some usr
  pub nonempty : usr ≢ []

abbrev usr_at : Text → Option Text → Bool
usr_at usr o = elem usr (usr_list o)

usr_at_iff : (usr : Text) (o : Option Text) → (usr_at usr o ≡ true) ↔ ((o ≡ some usr) × (usr ≢ []))
usr_at_iff usr none = ground arith
usr_at_iff usr (some []) = ground arith
usr_at_iff usr (some (x ∷ s)) = ground (arith, list_beq_iff usr (x ∷ s))

is_in_iff : (file : Text) (c : Cursor) → (is_in file c ≡ true) ↔ (c.file ≡ some file)
is_in_iff file c = elim (Option-cases c.file) [
  | inl nothing ↦ ground (arith, nothing)
  | inr (name, named) ↦ ground (arith, named, list_beq_iff name file)
]

here :
    (access : Cursor → Option Text) (file usr : Text) (c : Cursor)
    → ((is_in file c && usr_at usr (access c)) ≡ true) ↔ HasUsr access file usr c
here access file usr c = ground (arith, is_in_iff file c, usr_at_iff usr (access c))

abbrev has_usr : (Cursor → Option Text) → Text → Text → Cursor → Bool
has_usr access file usr c = is_in file c && usr_at usr (access c)

elem-collect_usrs :
    (access : Cursor → Option Text) (file usr : Text) (cursors : List Cursor)
    → elem usr (collect_usrs access file cursors) ≡ any (has_usr access file usr) cursors
unfolding collect_usrs
elem-collect_usrs access file usr [] = refl
elem-collect_usrs access file usr (c ∷ cursors) = ground (
  arith,
  elem-append usr (usr_list (access c)) (collect_usrs access file cursors),
  elem-collect_usrs access file usr cursors,
)

collect_usrs_lem :
    (access : Cursor → Option Text) (file usr : Text) (cursors : List Cursor)
    → (elem usr (collect_usrs access file cursors) ≡ true) ↔ Exists (HasUsr access file usr) cursors
collect_usrs_lem access file usr cursors =
    rw (elem-collect_usrs access file usr cursors) (any-Exists _ _ (here access file usr) cursors)

-- Two lists without a common item.
abbrev IsDisjoint : List Text → List Text → Type 0
IsDisjoint xs ys = (u : Text) → elem u xs ≡ true → elem u ys ≡ true → ⊥

IsDisjoint-any : (xs ys : List Text) → any (λ u. elem u ys) xs ≡ false → IsDisjoint xs ys
IsDisjoint-any [] ys h u hx hy = cc hx
IsDisjoint-any (x ∷ xs) ys h u hx hy = ground (
  arith,
  elem_same u x ys,
  list_beq_iff u x,
  h,
  hx,
  hy,
  λ (rest : any (λ (v : Text). elem v ys) xs ≡ false) (there : elem u xs ≡ true).
      IsDisjoint-any xs ys rest u there hy,
)
  where
    elem_same : (u v : Text) (ys : List Text) → u ≡ v → elem u ys ≡ elem v ys
    elem_same u v ys e = cc

any-IsDisjoint : (xs ys : List Text) → IsDisjoint xs ys → any (λ u. elem u ys) xs ≡ false
any-IsDisjoint [] ys h = refl
any-IsDisjoint (x ∷ xs) ys h = elim (Bool-cases (elem x ys)) [
  | inl common ↦ absurd (h x (rw ((list_beq_iff x x).1 refl) refl) common)
  | inr own ↦ rw own (any-IsDisjoint xs ys (λ u hx hy. h u (ground (arith, hx)) hy))
]

elem-keep :
    (p : Text) (test : Text → Bool) (xs : List Text) → elem p (keep test xs) ≡ (elem p xs && test p)
elem-keep p test [] = refl
elem-keep p test (x ∷ xs) = ground (arith, elem-keep p test xs, list_beq_iff p x, test_same p x)
  where
    test_same : (p x : Text) → p ≡ x → test p ≡ test x
    test_same p x e = cc

-- The file declares something, and a cursor of the main file refers to nothing of it.
abbrev pub Unused : Tree Cursor → Text → Text → Type 0
Unused tu main_file path =
    ((usr : Text) × Exists (HasUsr (λ c. c.usr) path usr) (preorder tu))
    × ((usr : Text)
        → Exists (HasUsr (λ c. c.usr) path usr) (preorder tu)
        → Exists (HasUsr (λ c. c.referenced) main_file usr) (preorder tu)
        → ⊥)

none_used_lem :
    (used declared : List Text)
    → (none_used used declared ≡ true)
      ↔ ((usr : Text) × (elem usr declared ≡ true)) × IsDisjoint declared used
unfolding none_used
none_used_lem used [] = (λ h. absurd (cc h), λ h. absurd (cc (h.0.1)))
none_used_lem used (u ∷ us) = (
  λ h. ((u, rw ((list_beq_iff u u).1 refl) refl), IsDisjoint-any (u ∷ us) used (ground (arith, h))),
  λ h. rw (any-IsDisjoint (u ∷ us) used h.1) refl,
)

is_orphaned-Unused :
    (tu : Tree Cursor) (main_file path : Text)
    → (is_orphaned tu (collect_usrs_in_main_file tu main_file) path ≡ true)
      ↔ Unused tu main_file path
unfolding is_orphaned collect_usrs_in_file collect_usrs_in_main_file
is_orphaned-Unused tu main_file path =
    let cursors = preorder tu in
    let declares = λ (u : Text). collect_usrs_lem (λ c. c.usr) path u cursors in
    let refers = λ (u : Text). collect_usrs_lem (λ c. c.referenced) main_file u cursors in
    let iff =
      none_used_lem (collect_usrs (λ c. c.referenced) main_file cursors)
        (collect_usrs (λ c. c.usr) path cursors) in
    (
      λ h.
          let ((u, there), apart) = iff.0 h in
          ((u, (declares u).0 there), λ v d r. apart v ((declares v).1 d) ((refers v).1 r)),
      λ h.
          let ((u, there), apart) = h in
          iff.1 ((u, (declares u).1 there), λ v d r. apart v ((declares v).0 d) ((refers v).0 r)),
    )

-- The orphaned inclusions are exactly the direct ones that declare something with a USR and of which
-- no cursor of the main file refers to anything.
pub orphaned_includes_lem :
    (unit : Parsed HeaderUnit) (path : Text)
    → (elem path (header_answer unit).orphaned_includes ≡ true)
      ↔ (elem path (header_answer unit).direct_includes ≡ true) × Unused unit.tu.tree unit.file path
unfolding header_answer
orphaned_includes_lem unit path =
    let tu = unit.tu.tree in
    let used = collect_usrs_in_main_file tu unit.file in
    let unused = is_orphaned-Unused tu unit.file path in
    let direct = (header_answer unit).direct_includes in
    let kept = elem-keep path (is_orphaned tu used) direct in
    (
      λ h.
          let member : elem path direct ≡ true = ground (arith, kept, h) in
          let alone : is_orphaned tu used path ≡ true = ground (arith, kept, h) in
          (member, unused.0 alone),
      λ h. ground (arith, kept, h.0, unused.1 h.1),
    )
