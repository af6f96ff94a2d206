-- ===== src/Ast/Diagnostics.antt =====
-- The diagnostics of a translation unit (src/cpp_mcp/core/ast_walker.py): `_collect_diagnostics`,
-- `_severity_name`, `has_zero_ast_nodes` and `has_fatal_diagnostics`.
use cpp_mcp.Base.{
  ℕ, String, Option, none, some, Bool, true, false, not, List, [], ◌∷◌, ℤ, pos, eqz, lez,
  if◌then◌else◌, ◌≡◌, refl, arith, any, Bool-cases, inl, inr,
}
use cpp_mcp.Ast.Cursor.{Cursor, cursor}
use cpp_mcp.Ast.Json.{children_exist}

pub record Diagnostic : Type 0 where
  pub severity : ℤ
  pub spelling : String
  pub file : Option String
  pub line : ℕ
  pub column : ℕ

-- The iteration over `tu.diagnostics`: `none` stands for an access that raises.
abbrev pub Stream : Type 0
Stream = List (Option Diagnostic)

-- A severity's name, or its number as text.
pub data SeverityName : Type 0 where
  note warning error fatal : SeverityName
  number : ℤ → SeverityName

unfoldable pub severity_name : ℤ → SeverityName
severity_name s =
    if eqz s (pos 0)
    then note
    else if eqz s (pos 1)
    then warning
    else if eqz s (pos 2)
    then warning
    else if eqz s (pos 3)
    then error
    else if eqz s (pos 4)
    then fatal
    else number s

pub record ParseError : Type 0 where
  pub severity : SeverityName
  pub message : String
  pub file : Option String
  pub line : ℕ
  pub col : ℕ

abbrev report : Diagnostic → ParseError
report d = record {
  severity = severity_name d.severity;
  message = d.spelling;
  file = d.file;
  line = d.line;
  col = d.column;
}

-- What was collected before an access raised is kept.
unfoldable pub collect_diagnostics : Stream → List ParseError
collect_diagnostics [] = []
collect_diagnostics (none ∷ rest) = []
collect_diagnostics (some d ∷ rest) = report d ∷ collect_diagnostics rest

unfoldable pub has_fatal_diagnostics : Stream → Bool
has_fatal_diagnostics [] = false
has_fatal_diagnostics (none ∷ rest) = false
has_fatal_diagnostics (some d ∷ rest) =
    if lez (pos 4) d.severity then true else has_fatal_diagnostics rest

-- `not any(True for _ in tu.cursor.get_children())`; no cursor stands for an access that raises.
unfoldable pub has_zero_ast_nodes : Option Cursor → Bool
has_zero_ast_nodes none = true
has_zero_ast_nodes (some (cursor a children)) = not (children_exist children)

unfoldable pub is_fatal : SeverityName → Bool
is_fatal fatal = true
is_fatal (number n) = lez (pos 4) n
is_fatal _ = false

is_fatal-severity_name : (s : ℤ) → is_fatal (severity_name s) ≡ lez (pos 4) s
unfolding is_fatal severity_name
is_fatal-severity_name (pos n) = ground arith
is_fatal-severity_name (ℤ.negsuc n) = refl

-- A unit counts as fatally broken exactly when one of the diagnostics that are reported for it is
-- fatal: the two iterations stop at the same raise and agree on the severities.
pub fatal_is_reported :
    (s : Stream) → has_fatal_diagnostics s ≡ any (λ e. is_fatal e.severity) (collect_diagnostics s)
unfolding has_fatal_diagnostics collect_diagnostics
fatal_is_reported [] = refl
fatal_is_reported (none ∷ rest) = refl
fatal_is_reported (some d ∷ rest) = elim (Bool-cases (lez (pos 4) d.severity)) [
  | inl h ↦ rw (h, is_fatal-severity_name d.severity, h) refl
  | inr h ↦ rw (h, is_fatal-severity_name d.severity, h) (fatal_is_reported rest)
]
