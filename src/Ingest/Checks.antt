-- ===== src/Ingest/Checks.antt =====
-- The checks of `_do_ingest_code` (src/cpp_mcp/tools/ingest_code.py) before a driver is connected.
use cpp_mcp.Base.{Text, List, [], ◌∷◌, Option, none, some, Bool, true, false, ◌≡◌, inl, inr, arith}
use cpp_mcp.Errors.{Result, ok, raise_if, ◌>>=◌, ◌>>◌, Result-cases, invalid_argument_error}
use cpp_mcp.Paths.Guard.{FileSystem, file, dir, validate_path}
use cpp_mcp.Query.Tool.{Backend}
use cpp_mcp.Drivers.Select.{select_driver}

pub record Request : Type 0 where
  pub file_path_or_dir : Text
  pub build_path : Option Text
  pub db_uri : Option Text
  pub allowed_roots : List Text
  pub recursive : Bool

-- `not value`, for a string or None.
abbrev pub is_missing : Option Text → Bool
is_missing none = true
is_missing (some []) = true
is_missing (some (c ∷ s)) = false

abbrev pub text_of : Option Text → Text
text_of none = []
text_of (some t) = t

-- What passes: the backend, the build directory and the path.
unfoldable pub checked :
    (Text → Result Text) → FileSystem → Request → Result (Backend × (Text × Text))
unfolding select_driver validate_path
checked scheme_of fs r = do
  raise_if (is_missing r.db_uri) invalid_argument_error
  raise_if (is_missing r.build_path) invalid_argument_error
  backend ← select_driver scheme_of (text_of r.db_uri)
  validated_build ← validate_path fs (text_of r.build_path) r.allowed_roots dir
  validated_input ← validate_path fs r.file_path_or_dir r.allowed_roots file
  ok (backend, (validated_build, validated_input))

-- What passes has accepted paths.
pub checked_paths :
    (scheme_of : Text → Result Text) (fs : FileSystem) (r : Request) (backend : Backend)
    (build path : Text)
    → checked scheme_of fs r ≡ ok (backend, (build, path))
    → (validate_path fs (text_of r.build_path) r.allowed_roots dir ≡ ok build)
      × (validate_path fs r.file_path_or_dir r.allowed_roots file ≡ ok path)
unfolding checked
checked_paths scheme_of fs r backend build path h =
    elim (Result-cases (select_driver scheme_of (text_of r.db_uri))) [
      | inr (e, bad) ↦ absurd (ground (arith, bad, h))
      | inl (chosen, k) ↦
          elim (Result-cases (validate_path fs (text_of r.build_path) r.allowed_roots dir)) [
            | inr (e, bad) ↦ absurd (ground (arith, k, bad, h))
            | inl (b, k') ↦
                elim (Result-cases (validate_path fs r.file_path_or_dir r.allowed_roots file)) [
                  | inr (e, bad) ↦ absurd (ground (arith, k, k', bad, h))
                  | inl (p, k'') ↦ (ground (arith, k, k', k'', h), ground (arith, k, k', k'', h))
                ]
          ]
    ]
