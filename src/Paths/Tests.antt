-- ===== src/Paths/Tests.antt =====
-- The path guard of src/cpp_mcp/core/path_guard.py on a small file system, and the theorems at it.
use cpp_mcp.Base.{
  Text, true, false, List, [], ◌∷◌, ◌++◌, ◌≡◌, ◌≢◌, ◌⊎◌, refl, codes, elem, list_eq, nat_eq, ◌≟◌,
}
use cpp_mcp.Errors.{ok, raise, path_violation_error, invalid_argument_error}
use cpp_mcp.Paths.Text.{sep, split, join, parts, common_prefix, commonpath}
use cpp_mcp.Paths.Guard.{
  FileSystem, file, dir, pure_parts, has_dotdot, under_root, under_any_root, validate_path,
}
use cpp_mcp.Paths.Roots.{Inside, validate_path_safe, trailing_separator_admits_nothing}

program : Unit {0}
unfolding split join parts common_prefix commonpath pure_parts has_dotdot under_root under_any_root
    validate_path
program = tt

abbrev source : Text
source = codes "/src/a.cpp"

-- One file, no links.
abbrev fs : FileSystem
fs = record { realpath = λ p. p; exists = λ p. p ≟ source; is_file = λ p. p ≟ source }

abbrev roots : List Text
roots = codes "/lib" ∷ codes "/src" ∷ []

accepted : validate_path fs source roots file ≡ ok source
unfolding program
accepted = refl

-- A name that only begins like a root, a `..` segment, and a file where a directory is wanted.
refused :
    (validate_path fs (codes "/srcs/a.cpp") roots file ≡ raise path_violation_error)
    × (validate_path fs (codes "/src/../a.cpp") roots file ≡ raise path_violation_error)
    × (validate_path fs source roots dir ≡ raise invalid_argument_error)
unfolding program
refused = (refl, refl, refl)

validate_path_safe_example :
    (source ≡ fs.realpath source)
    × (has_dotdot source ≡ false)
    × ((root : Text) × (elem root roots ≡ true) × Inside source root)
    × (fs.exists source ≡ true)
    × ((file ≡ file) ⊎ (fs.is_file source ≡ false))
validate_path_safe_example = validate_path_safe fs source roots file source accepted

src_not_empty : codes "/src" ≢ []
src_not_empty h = absurd (cc h)

trailing_separator_admits_nothing_example : under_root source (codes "/src" ++ sep ∷ []) ≡ false
trailing_separator_admits_nothing_example =
    trailing_separator_admits_nothing source (codes "/src") src_not_empty
