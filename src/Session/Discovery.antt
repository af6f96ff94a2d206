-- ===== src/Session/Discovery.antt =====
-- `_configure_libclang` of src/cpp_mcp/core/clang_session.py: the directories that are tried in turn, over what
-- the disk holds and what the binding does with a directory.
use cpp_mcp.Base.{
  Text, List, [], ◌∷◌, ◌++◌, Option, some, Bool, true, false, not, ◌&&◌, codes, All, if◌then◌else◌,
  ◌≡◌, refl,
}

-- What `set_library_path` and `Index.create()` do with a directory: the first raises, only the second
-- does, or neither.
pub data Attempt : Type 0 where
  refused not_loaded loaded : Attempt

-- `has_library` says whether one of the two patterns finds a file.
pub record Disk : Type 0 where
  pub is_dir : Text → Bool
  pub has_library : Text → Bool
  pub attempt : Text → Attempt

abbrev common_paths : List Text
common_paths =
    codes "/Applications/Xcode.app/Contents/Developer/Toolchains/XcodeDefault.xctoolchain/usr/lib"
    ∷ codes "/Applications/Xcode.app/Contents/Frameworks"
    ∷ (codes "/Applications/Swift Playground.app/Contents/Developer/Toolchains/"
        ++ codes "XcodeDefault.xctoolchain/usr/lib")
    ∷ codes "/opt/homebrew/opt/llvm/lib"
    ∷ codes "/usr/local/opt/llvm/lib"
    ∷ codes "/usr/lib/llvm-19/lib"
    ∷ codes "/usr/lib/llvm-18/lib"
    ∷ codes "/usr/lib/llvm-17/lib"
    ∷ codes "/usr/lib/x86_64-linux-gnu"
    ∷ codes "/usr/lib"
    ∷ []

-- `_LIBCLANG_CANDIDATES`, with the variable of the environment in front.
abbrev libclang_candidates : Text → List Text
libclang_candidates [] = common_paths
libclang_candidates (c ∷ env_override) = (c ∷ env_override) ∷ common_paths

-- What an attempt leaves, by what the rest of the loop leaves without and with the candidate set.
abbrev tried : Attempt → Text → Option Text → Option Text → Option Text
tried refused candidate skipped set = skipped
tried not_loaded candidate skipped set = set
tried loaded candidate skipped set = some candidate

-- The library path of the binding that the loop leaves, from the one that is set.
unfoldable pub configure_from : Disk → List Text → Option Text → Option Text
configure_from disk [] path = path
configure_from disk (candidate ∷ candidates) path =
    let skipped = configure_from disk candidates path in
    let set = configure_from disk candidates (some candidate) in
    if not (disk.is_dir candidate && disk.has_library candidate)
    then skipped
    else tried (disk.attempt candidate) candidate skipped set

unfoldable pub configure_libclang : Bool → Text → Disk → Option Text → Option Text
unfolding configure_from
configure_libclang installed env_override disk path =
    if installed then configure_from disk (libclang_candidates env_override) path else path

abbrev is_loaded : Attempt → Bool
is_loaded refused = false
is_loaded not_loaded = false
is_loaded loaded = true

abbrev pub loads : Disk → Text → Bool
loads disk candidate =
    (disk.is_dir candidate && disk.has_library candidate) && is_loaded (disk.attempt candidate)

tried-loaded :
    (usable : Bool) (a : Attempt) (c : Text) (skipped set : Option Text)
    → (usable && is_loaded a) ≡ true
    → (if not usable then skipped else tried a c skipped set) ≡ some c
tried-loaded true loaded c skipped set h = refl
tried-loaded true refused c skipped set h = absurd (cc h)
tried-loaded true not_loaded c skipped set h = absurd (cc h)
tried-loaded false a c skipped set h = absurd (cc h)

tried-not_loaded :
    (usable : Bool) (a : Attempt) (c : Text) {skipped set left : Option Text}
    → (usable && is_loaded a) ≡ false
    → skipped ≡ left
    → set ≡ left
    → (if not usable then skipped else tried a c skipped set) ≡ left
tried-not_loaded true loaded c h k l = absurd (cc h)
tried-not_loaded true refused c h k l = k
tried-not_loaded true not_loaded c h k l = l
tried-not_loaded false a c h k l = k

-- The first candidate from which libclang can be loaded is the one that is left set.
pub first_that_loads :
    (disk : Disk) (before : List Text) (candidate : Text) (after : List Text) (path : Option Text)
    → All (λ c. loads disk c ≡ false) before
    → loads disk candidate ≡ true
    → configure_from disk (before ++ candidate ∷ after) path ≡ some candidate
unfolding configure_from
first_that_loads disk [] candidate after path none_before h =
    tried-loaded (disk.is_dir candidate && disk.has_library candidate) (disk.attempt candidate)
      candidate (configure_from disk after path) (configure_from disk after (some candidate)) h
first_that_loads disk (c ∷ before) candidate after path (skip, none_before) h =
    tried-not_loaded (disk.is_dir c && disk.has_library c) (disk.attempt c) c skip
      (first_that_loads disk before candidate after path none_before h)
      (first_that_loads disk before candidate after (some c) none_before h)
