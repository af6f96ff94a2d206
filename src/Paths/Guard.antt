-- ===== src/Paths/Guard.antt =====
-- `validate_path` of src/cpp_mcp/core/path_guard.py. What the operating system answers is a parameter.
use cpp_mcp.Base.{
  Text, Bool, true, false, not, ◌&&◌, List, [], ◌∷◌, ◌≟◌, list_eq, nat_eq, if◌then◌else◌, elem,
  ◌==◌, ◌++◌, none, some,
}
use cpp_mcp.Errors.{
  Result, ok, raise_if, ◌>>◌, path_violation_error, file_not_found_error, invalid_argument_error,
}
use cpp_mcp.Paths.Text.{sep, parts, commonpath}

-- `os.path.realpath(os.path.abspath(p))`, `os.path.exists` and `Path.is_file` at one moment.
pub record FileSystem : Type 0 where
  pub realpath : Text → Text
  pub exists : Text → Bool
  pub is_file : Text → Bool

pub data Kind : Type 0 where
  file dir : Kind

-- The root of `PurePath(raw).parts`: two slashes are kept, three are one.
pure_root : Text → List Text
pure_root (a ∷ b ∷ c ∷ s) =
    if not (a == sep)
    then []
    else if (b == sep) && not (c == sep)
    then (sep ∷ sep ∷ []) ∷ []
    else (sep ∷ []) ∷ []
pure_root (a ∷ b ∷ []) =
    if not (a == sep) then [] else if b == sep then (sep ∷ sep ∷ []) ∷ [] else (sep ∷ []) ∷ []
pure_root (a ∷ []) = if a == sep then (sep ∷ []) ∷ [] else []
pure_root [] = []

unfoldable pub pure_parts : Text → List Text
unfolding pure_root
pure_parts raw = pure_root raw ++ parts raw

abbrev pub dotdot : Text
dotdot = b'.' ∷ b'.' ∷ []

unfoldable pub has_dotdot : Text → Bool
unfolding pure_parts
has_dotdot raw = elem dotdot (pure_parts raw)

-- The test of one root: a ValueError of `commonpath` skips it.
unfoldable pub under_root : Text → Text → Bool
under_root resolved root = elim (commonpath resolved root) [
  | none ↦ false
  | some common ↦ common ≟ root
]

unfoldable pub under_any_root : Text → List Text → Bool
under_any_root resolved [] = false
under_any_root resolved (root ∷ roots) =
    if under_root resolved root then true else under_any_root resolved roots

abbrev is_empty : Text → Bool
is_empty [] = true
is_empty (c ∷ s) = false

abbrev is_dir : Kind → Bool
is_dir dir = true
is_dir file = false

unfoldable pub validate_path : FileSystem → Text → List Text → Kind → Result Text
validate_path fs raw allowed_roots kind = do
  raise_if (is_empty raw) path_violation_error
  raise_if (has_dotdot raw) path_violation_error
  let resolved = fs.realpath raw
  raise_if (not (under_any_root resolved allowed_roots)) path_violation_error
  raise_if (not (fs.exists resolved)) file_not_found_error
  raise_if (is_dir kind && fs.is_file resolved) invalid_argument_error
  ok resolved
