-- ===== src/CompileDb.antt =====
-- src/cpp_mcp/core/compile_db.py: the compiler flags of one file. libclang's database is a parameter.
use cpp_mcp.Base.{
  Text, List, [], ◌∷◌, ◌++◌, Option, none, some, Bool, false, ltb, length, elem, codes, list_eq,
  nat_eq, if◌then◌else◌, ◌≡◌, refl, arith,
}
use cpp_mcp.Errors.{Result, ok, raise, invalid_argument_error}

-- `clang.cindex.CompilationDatabase`: the `arguments` of each command of `getCompileCommands`,
-- `none` where that returns None.
abbrev pub Database : Type 0
Database = Text → Option (List (List Text))

-- What the build directory holds: `is_file`, and what `fromDirectory` loads or raises.
pub record BuildTree : Type 0 where
  pub is_file : Text → Bool
  pub from_directory : Text → Result Database

pub data FlagsSource : Type 0 where
  compilation_db default : FlagsSource

-- Whatever `fromDirectory` raises, there is no database.
unfoldable pub load_compile_db : BuildTree → Text → Option Database
load_compile_db tree build_path = elim (tree.from_directory build_path) [
  | raise e ↦ none
  | ok db ↦ some db
]

-- `args[1:-1]`
unfoldable pub but_last : List Text → List Text
but_last [] = []
but_last (x ∷ []) = []
but_last (x ∷ y ∷ xs) = x ∷ but_last (y ∷ xs)

unfoldable pub inner : List Text → List Text
unfolding but_last
inner [] = []
inner (x ∷ xs) = but_last xs

abbrev pub synthetic_separator : Text
synthetic_separator = codes "--"

unfoldable pub flags_of_command : List Text → Option (List Text)
unfolding inner
flags_of_command args =
    if elem synthetic_separator args
    then none
    else if ltb (length args) 2
    then some []
    else some (inner args)

unfoldable pub extract_flags : Database → Text → Option (List Text)
unfolding flags_of_command
extract_flags db file_path = elim (db file_path) [
  | none ↦ none
  | some commands ↦ elim commands [ [] ↦ none | cmd ∷ rest ↦ flags_of_command cmd ]
]

-- The flags of a loaded database, or the default ones.
unfoldable pub from_database : Option Database → Text → List Text → List Text × FlagsSource
unfolding extract_flags
from_database none file_path default_flags = (default_flags, default)
from_database (some db) file_path default_flags = elim (extract_flags db file_path) [
  | none ↦ (default_flags, default)
  | some flags ↦ (flags, compilation_db)
]

unfoldable pub resolve_flags :
    BuildTree → Text → Option Text → List Text → Result (List Text × FlagsSource)
unfolding from_database load_compile_db
resolve_flags tree file_path none default_flags = ok (default_flags, default)
resolve_flags tree file_path (some build_path) default_flags =
    if tree.is_file build_path
    then raise invalid_argument_error
    else ok (from_database (load_compile_db tree build_path) file_path default_flags)

but_last-append : (flags : List Text) (file : Text) → but_last (flags ++ file ∷ []) ≡ flags
unfolding but_last
but_last-append [] file = refl
but_last-append (x ∷ []) file = refl
but_last-append (x ∷ y ∷ flags) file = ground (arith, but_last-append (y ∷ flags) file)

length-command :
    (compiler file : Text) (flags : List Text)
    → ltb (length (compiler ∷ flags ++ file ∷ [])) 2 ≡ false
length-command compiler file [] = refl
length-command compiler file (x ∷ flags) = ground arith

-- A command of the database without a "--" gives exactly the flags between the compiler and the
-- file, whatever the default flags are; any number of further commands for the file are ignored.
pub listed_file_flags :
    (tree : BuildTree) (db : Database) (file build compiler source : Text)
    (flags defaults : List Text) (others : List (List Text))
    → tree.is_file build ≡ false
    → tree.from_directory build ≡ ok db
    → db file ≡ some ((compiler ∷ flags ++ source ∷ []) ∷ others)
    → elem synthetic_separator (compiler ∷ flags ++ source ∷ []) ≡ false
    → resolve_flags tree file (some build) defaults ≡ ok (flags, compilation_db)
unfolding resolve_flags
listed_file_flags tree db file build compiler source flags defaults others d loaded found real =
    ground (arith, found, length-command compiler source flags, but_last-append flags source)
