-- ===== src/Navigation/References/Places.antt =====
-- Which references `_collect_references` of src/cpp_mcp/tools/get_references.py gives.
use cpp_mcp.Base.{
  Text, List, [], ◌∷◌, map, elem, any, any-Exists, Exists, All, IsNodup, Option, none, some, Bool,
  true, false, not, ◌&&◌, ◌≟◌, nat_eq, list_eq, pair_eq, list_beq_iff, pair_beq_iff, ◌≡◌, ◌≢◌, ◌↔◌,
  refl, arith, inl, inr, Bool-cases, Option-cases,
}
use cpp_mcp.Navigation.Tree.{Tree, preorder}
use cpp_mcp.Navigation.References.{
  Place, Cursor, Reference, context_snippet, refers_at, collect_from, collect_references,
}

abbrev pub places : List Reference → List Place
places = map (λ (r : Reference). r.place)

-- A cursor at a place whose file is known, which refers to the symbol and is not of it.
pub record RefersTo (target : Text) (place : Place) (c : Cursor) : Type 0 where
  pub file : c.file ≡ some place.0
  pub line : c.line ≡ place.1.0
  pub column : c.column ≡ place.1.1
  pub other : c.usr ≢ target
  pub referenced : c.referenced ≡ some target

abbrev same_place : Place → Option Place → Bool
same_place p none = false
same_place p (some q) = p ≟ q

abbrev is_at : Text → Place → Cursor → Bool
is_at target p c = same_place p (refers_at target c)

is_at-RefersTo :
    (target : Text) (p : Place) (c : Cursor) → (is_at target p c ≡ true) ↔ RefersTo target p c
unfolding refers_at
is_at-RefersTo target p c = elim (Option-cases c.file) [
  | inl no_file ↦ ground (arith, no_file)
  | inr (f, named) ↦ elim (Option-cases c.referenced) [
    | inl nothing ↦ ground (arith, named, nothing)
    | inr (usr, refers) ↦ ground (
      arith,
      named,
      refers,
      list_beq_iff usr target,
      list_beq_iff c.usr target,
      list_beq_iff p.0 f,
    )
  ]
]

elem_same : (p q : Place) (xs : List Place) → p ≡ q → elem p xs ≡ elem q xs
elem_same p q xs h = cc

-- The places are those at which a cursor refers to the symbol, but for those that are seen.
elem-places :
    (read_text : Text → Option Text) (target : Text) (p : Place) (seen : List Place)
    (cursors : List Cursor)
    → elem p (places (collect_from read_text target seen cursors))
      ≡ (not (elem p seen) && any (is_at target p) cursors)
unfolding collect_from
elem-places read_text target p seen [] = ground arith
elem-places read_text target p seen (c ∷ cursors) = elim (Option-cases (refers_at target c)) [
  | inl nothing ↦ ground (arith, nothing, elem-places read_text target p seen cursors)
  | inr (q, found) ↦ ground (
    arith,
    found,
    pair_beq_iff p q,
    elem_same p q seen,
    elem-places read_text target p seen cursors,
    elem-places read_text target p (q ∷ seen) cursors,
  )
]

-- A place that is seen is not given.
new_only :
    (read_text : Text → Option Text) (target : Text) (p : Place) (seen : List Place)
    (cursors : List Cursor)
    → elem p (places (collect_from read_text target (p ∷ seen) cursors)) ≡ false
new_only read_text target p seen cursors =
    ground (arith, elem-places read_text target p (p ∷ seen) cursors, pair_beq_iff p p)

IsNodup-places :
    (read_text : Text → Option Text) (target : Text) (seen : List Place) (cursors : List Cursor)
    → IsNodup (places (collect_from read_text target seen cursors))
unfolding collect_from
IsNodup-places read_text target seen [] = tt
IsNodup-places read_text target seen (c ∷ cursors) = elim (Option-cases (refers_at target c)) [
  | inl nothing ↦ rw (nothing, collect_from) (IsNodup-places read_text target seen cursors)
  | inr (q, found) ↦ elim (Bool-cases (elem q seen)) [
    | inl old ↦ rw (found, collect_from) (rw old (IsNodup-places read_text target seen cursors))
    | inr new ↦
        rw (found, collect_from)
          (rw new (
            new_only read_text target q seen cursors,
            IsNodup-places read_text target (q ∷ seen) cursors,
          ))
  ]
]

-- The snippet is the line of the file, stripped.
abbrev pub HasSnippet : (Text → Option Text) → Reference → Type 0
HasSnippet read_text r = r.context_snippet ≡ context_snippet read_text r.place.0 r.place.1.0

All-HasSnippet :
    (read_text : Text → Option Text) (target : Text) (seen : List Place) (cursors : List Cursor)
    → All (HasSnippet read_text) (collect_from read_text target seen cursors)
unfolding collect_from
All-HasSnippet read_text target seen [] = tt
All-HasSnippet read_text target seen (c ∷ cursors) = elim (Option-cases (refers_at target c)) [
  | inl nothing ↦ rw (nothing, collect_from) (All-HasSnippet read_text target seen cursors)
  | inr (q, found) ↦ elim (Bool-cases (elem q seen)) [
    | inl old ↦ rw (found, collect_from) (rw old (All-HasSnippet read_text target seen cursors))
    | inr new ↦
        rw (found, collect_from) (rw new (refl, All-HasSnippet read_text target (q ∷ seen) cursors))
  ]
]

-- The places of the references to a symbol are exactly those of the cursors of the unit, at any
-- depth, that lie in a file, refer to the symbol and are not of the symbol itself; no place is
-- listed twice, and each reference has the stripped line of its file as its snippet.
pub collect_references_lem :
    (read_text : Text → Option Text) (tu : Tree Cursor) (target : Text)
    → ((place : Place)
        → (elem place (places (collect_references read_text tu target)) ≡ true)
          ↔ Exists (RefersTo target place) (preorder tu))
      × IsNodup (places (collect_references read_text tu target))
      × All (HasSnippet read_text) (collect_references read_text tu target)
unfolding collect_references
collect_references_lem read_text tu target = (
  λ p.
      let found = elem-places read_text target p [] (preorder tu) in
      let at_place = any-Exists _ _ (is_at-RefersTo target p) (preorder tu) in rw found at_place,
  IsNodup-places read_text target [] (preorder tu),
  All-HasSnippet read_text target [] (preorder tu),
)
