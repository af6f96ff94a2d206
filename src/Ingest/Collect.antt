-- ===== src/Ingest/Collect.antt =====
-- `collect_cpp_files` of src/cpp_mcp/graphdb/exporter.py. What the file system answers is a parameter.
pub mod Order
use cpp_mcp.Base.{
  ℕ, Text, String, List, [], ◌∷◌, ◌++◌, Option, none, some, Bool, true, false, not, ◌&&◌, ◌||◌, ◌≟◌,
  list_eq, nat_eq, ltb, ◌==◌, codes, elem, keep, if◌then◌else◌, ◌≡◌, ◌⊎◌, inl, inr, refl, sym, ap,
  ◌∙◌, arith, All, All-map, Bool-cases, list_beq_iff,
}
use cpp_mcp.Errors.{Result, ok, raise, ◌>>=◌}
use cpp_mcp.Paths.Text.{parts}

-- `Path.is_file`, and the paths that `rglob("*")` and `iterdir()` of a directory give, or what they raise.
pub record Listing : Type 0 where
  pub is_file : Text → Bool
  pub rglob : Text → Result (List Text)
  pub iterdir : Text → Result (List Text)

-- The text from its last dot on.
last_dot : Text → Option Text
last_dot [] = none
last_dot (c ∷ s) = elim (last_dot s) [
  | none ↦ if c == b'.' then some (c ∷ s) else none
  | some found ↦ some found
]

abbrev last_part : List Text → Text
last_part [] = []
last_part (w ∷ []) = w
last_part (w ∷ v ∷ ws) = last_part (v ∷ ws)

-- `PurePath.name`
unfoldable pub name_of : Text → Text
unfolding parts
name_of path = last_part (parts path)

abbrev unless_bare : Option Text → Text
unless_bare none = []
unless_bare (some []) = []
unless_bare (some (dot ∷ [])) = []
unless_bare (some (dot ∷ c ∷ s)) = dot ∷ c ∷ s

abbrev suffix_of_name : Text → Text
suffix_of_name [] = []
suffix_of_name (c ∷ s) = unless_bare (last_dot s)

-- `PurePath.suffix`: a dot that begins or ends the name begins no suffix.
unfoldable pub suffix : Text → Text
unfolding last_dot name_of
suffix path = suffix_of_name (name_of path)

abbrev cpp_extensions : List Text
cpp_extensions = codes ".cpp" ∷ codes ".h" ∷ codes ".hpp" ∷ codes ".cc" ∷ codes ".cxx" ∷ []

unfoldable pub is_cpp : Text → Bool
unfolding suffix
is_cpp path = elem (suffix path) cpp_extensions

-- The orders of strings and of paths, which is that of their parts.
unfoldable pub text_le : Text → Text → Bool
text_le [] t = true
text_le (x ∷ s) [] = false
text_le (x ∷ s) (y ∷ t) = if x == y then text_le s t else ltb x y

unfoldable pub parts_le : List Text → List Text → Bool
unfolding text_le
parts_le [] ws = true
parts_le (v ∷ vs) [] = false
parts_le (v ∷ vs) (w ∷ ws) = if v ≟ w then parts_le vs ws else text_le v w

unfoldable pub path_le : Text → Text → Bool
unfolding parts_le parts
path_le p q = parts_le (parts p) (parts q)

insert_path : Text → List Text → List Text
unfolding path_le
insert_path p [] = p ∷ []
insert_path p (q ∷ qs) = if path_le p q then p ∷ q ∷ qs else q ∷ insert_path p qs

-- `sorted(paths)`
unfoldable pub sorted : List Text → List Text
unfolding insert_path
sorted [] = []
sorted (p ∷ ps) = insert_path p (sorted ps)

abbrev pub wanted : Listing → Text → Bool
wanted listing p = listing.is_file p && is_cpp p

unfoldable pub collect_cpp_files : Listing → Text → Bool → Result (List Text)
unfolding sorted is_cpp
collect_cpp_files listing path recursive =
    if listing.is_file path
    then ok (if is_cpp path then path ∷ [] else [])
    else ((if recursive then listing.rglob path else listing.iterdir path) >>= λ found.
        ok (sorted (keep (wanted listing) found)))
