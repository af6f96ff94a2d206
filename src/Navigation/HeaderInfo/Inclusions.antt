-- ===== src/Navigation/HeaderInfo/Inclusions.antt =====
-- The direct and the transitive inclusions that src/cpp_mcp/tools/get_header_info.py lists.
use cpp_mcp.Base.{
  ◌==◌, ==_iff, Text, List, [], ◌∷◌, elem, any, any-Exists, Exists, IsNodup, IsNodup-add_new,
  elem-add_new, Option, none, some, Bool, true, false, ◌&&◌, ◌||◌, ◌≟◌, nat_eq, list_eq,
  list_beq_iff, ◌≡◌, ◌↔◌, arith, inl, inr, Option-cases, Bool-cases,
}
use cpp_mcp.Navigation.HeaderInfo.{Inclusion, Includes, include_file, collect_includes}

abbrev names : Text → Option Text → Bool
names name none = false
names name (some n) = name ≟ n

names_iff : (name : Text) (o : Option Text) → (names name o ≡ true) ↔ (o ≡ some name)
names_iff name none = ground arith
names_iff name (some n) = ground (arith, list_beq_iff name n)

abbrev is_of : Text → Inclusion → Bool
is_of name inc = names name inc.name

abbrev is_direct : Text → Inclusion → Bool
is_direct name inc = inc.depth == 1 && is_of name inc

include_file_direct :
    (name : Text) (inc : Inclusion) (found : Includes)
    → elem name (include_file inc found).direct ≡ (elem name found.direct || is_direct name inc)
unfolding include_file
include_file_direct name inc found = elim (Option-cases inc.name) [
  | inl nothing ↦ ground (arith, nothing)
  | inr (n, named) ↦ ground (arith, named, elem-add_new name n found.direct)
]

include_file_transitive :
    (name : Text) (inc : Inclusion) (found : Includes)
    → elem name (include_file inc found).transitive ≡ (elem name found.transitive || is_of name inc)
unfolding include_file
include_file_transitive name inc found = elim (Option-cases inc.name) [
  | inl nothing ↦ ground (arith, nothing)
  | inr (n, named) ↦ ground (arith, named, elem-add_new name n found.transitive)
]

abbrev BothNodup : Includes → Type 0
BothNodup found = IsNodup found.direct × IsNodup found.transitive

include_file_nodup :
    (inc : Inclusion) (found : Includes) → BothNodup found → BothNodup (include_file inc found)
unfolding include_file
include_file_nodup inc found h = elim (Option-cases inc.name) [
  | inl nothing ↦ rw (nothing, include_file) h
  | inr (n, named) ↦ elim (Bool-cases (inc.depth == 1)) [
    | inl first ↦
        rw (named, include_file)
          (rw first (IsNodup-add_new n found.direct h.0, IsNodup-add_new n found.transitive h.1))
    | inr deeper ↦
        rw (named, include_file) (rw deeper (h.0, IsNodup-add_new n found.transitive h.1))
  ]
]

direct_found :
    (name : Text) (includes : List Inclusion) (found : Includes)
    → elem name (collect_includes includes found).direct
      ≡ (elem name found.direct || any (is_direct name) includes)
unfolding collect_includes
direct_found name [] found = ground arith
direct_found name (inc ∷ includes) found =
    ground (
      arith,
      include_file_direct name inc found,
      direct_found name includes (include_file inc found),
    )

transitive_found :
    (name : Text) (includes : List Inclusion) (found : Includes)
    → elem name (collect_includes includes found).transitive
      ≡ (elem name found.transitive || any (is_of name) includes)
unfolding collect_includes
transitive_found name [] found = ground arith
transitive_found name (inc ∷ includes) found = ground (
  arith,
  include_file_transitive name inc found,
  transitive_found name includes (include_file inc found),
)

collected_nodup :
    (includes : List Inclusion) (found : Includes)
    → BothNodup found
    → BothNodup (collect_includes includes found)
unfolding collect_includes
collected_nodup [] found h = h
collected_nodup (inc ∷ includes) found h =
    collected_nodup includes (include_file inc found) (include_file_nodup inc found h)

abbrev IsDirect : Text → Inclusion → Type 0
IsDirect name inc = (inc.depth ≡ 1) × (inc.name ≡ some name)

is_direct-IsDirect :
    (name : Text) (inc : Inclusion) → (is_direct name inc ≡ true) ↔ IsDirect name inc
is_direct-IsDirect name inc = ground (arith, names_iff name inc.name, ==_iff inc.depth 1)

abbrev pub no_includes : Includes
no_includes = record { direct = []; transitive = [] }

-- The direct inclusions are exactly the files that are included at depth 1, the transitive ones
-- exactly those that are included at any depth, and no file is listed twice.
pub collect_includes_lem :
    (includes : List Inclusion)
    → ((name : Text)
        → ((elem name (collect_includes includes no_includes).direct ≡ true)
            ↔ Exists (λ inc. (inc.depth ≡ 1) × (inc.name ≡ some name)) includes)
          × ((elem name (collect_includes includes no_includes).transitive ≡ true)
              ↔ Exists (λ inc. inc.name ≡ some name) includes))
      × IsNodup (collect_includes includes no_includes).direct
      × IsNodup (collect_includes includes no_includes).transitive
collect_includes_lem includes =
    let nodup = collected_nodup includes no_includes (tt, tt) in
    (
      λ name. (
        rw (direct_found name includes no_includes)
            (any-Exists _ _ (is_direct-IsDirect name) includes),
        rw (transitive_found name includes no_includes)
            (any-Exists _ _ (λ inc. names_iff name inc.name) includes),
      ),
      nodup.0,
      nodup.1,
    )
