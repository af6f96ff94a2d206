-- ===== src/Positions.antt =====
-- src/cpp_mcp/core/cursor.py: the cursor at a line and a column. The text of the file, which is read twice,
-- and what libclang answers are parameters.
mod Tests
use cpp_mcp.Base.{
  ℕ, zero, suc, ◌+◌, ◌-◌, ◌≤◌, Text, List, [], ◌∷◌, Option, none, some, Bool, true, false, not,
  ◌&&◌, ◌||◌, ltb, leb, ◌==◌, ℤ, pos, lez, max, length, get_elem?, if◌then◌else◌, ◌≡◌, refl, arith,
  Bool-cases, Option-cases, inl, inr,
}
use cpp_mcp.Errors.{
  ExceptionType, Result, ok, raise, raise_if, ◌>>=◌, ◌>>◌, invalid_position_error, Result-cases,
}
use cpp_mcp.Paths.Text.{push}

-- The characters that end a line for `str.splitlines`.
unfoldable pub ends_line : ℕ → Bool
ends_line c =
    (leb 10 c && leb c 13) || (leb 28 c && leb c 30) || c == 0x85 || c == 0x2028 || c == 0x2029

-- A line feed right after a carriage return ends no line of its own.
unfoldable pub lines_after : Bool → Text → List Text
unfolding ends_line
lines_after after_return [] = []
lines_after after_return (c ∷ s) =
    let rest = lines_after (c == 13) s in
    if after_return && c == 10 then rest else if ends_line c then [] ∷ rest else push c rest

-- `text.splitlines()`
unfoldable pub splitlines : Text → List Text
unfolding lines_after
splitlines text = lines_after false text

-- `none` is a file that cannot be read.
unfoldable pub count_lines : Option Text → Result ℕ
unfolding splitlines
count_lines none = raise invalid_position_error
count_lines (some text) = let n = length (splitlines text) in if n == 0 then ok 1 else ok n

abbrev pub length_of : Option Text → ℕ
length_of none = 0
length_of (some line) = length line

-- `len(lines[line - 1])`, or 0 out of range; `line` is at least 1.
unfoldable pub line_length : Option Text → ℕ → Result ℕ
unfolding splitlines
line_length none line = raise invalid_position_error
line_length (some text) line = ok (length_of (get_elem? (splitlines text) (line - 1)))

pub data Kind : Type 0 where
  translation_unit invalid_file meaningful : Kind

-- `tu.get_file(path)` is not None, and `Cursor.from_location`.
pub record UnitView (C : Type 0) : Type 0 where
  pub has_file : Bool
  pub from_location : ℕ → ℕ → Option C
  pub kind_of : C → Kind

abbrev pub is_meaningful : Kind → Bool
is_meaningful meaningful = true
is_meaningful _ = false

line_counted : (text : Text) → count_lines (some text) ≡ ok (max 1 (length (splitlines text)))
unfolding count_lines
line_counted text = elim (Bool-cases (length (splitlines text) == 0)) [
  | inl e ↦ rw e (ground (arith, e))
  | inr e ↦ rw e (ground (arith, e))
]

module _ {C : Type 0} where
  -- A cursor that stands for no symbol is refused.
  unfoldable pub symbol : (C → Kind) → Option C → Result C
  symbol kind_of none = raise invalid_position_error
  symbol kind_of (some c) = if is_meaningful (kind_of c) then ok c else raise invalid_position_error

  -- The checks of a position from 1 on, and the question to libclang.
  unfoldable pub locate : UnitView C → Option Text → Option Text → ℕ → ℕ → Result C
  unfolding count_lines line_length symbol
  locate tu first second line col = do
    total_lines ← count_lines first
    raise_if (ltb total_lines line) invalid_position_error
    line_len ← line_length second line
    raise_if (ltb (line_len + 1) col) invalid_position_error
    raise_if (not tu.has_file) invalid_position_error
    symbol tu.kind_of (tu.from_location line col)

  -- `first` and `second` are what the two reads of the file give.
  unfoldable pub cursor_at : UnitView C → Option Text → Option Text → ℤ → ℤ → Result C
  unfolding locate
  cursor_at tu first second (pos (suc line)) (pos (suc col)) =
      locate tu first second (suc line) (suc col)
  cursor_at tu first second _ _ = raise invalid_position_error

  symbol_found :
      (kind_of : C → Kind) (found : Option C) (c : C)
      → symbol kind_of found ≡ ok c
      → (found ≡ some c) × (kind_of c ≡ meaningful)
  unfolding symbol
  symbol_found kind_of none c h = absurd (cc h)
  symbol_found kind_of (some d) c h = ground (arith, h)

  locate_found :
      (tu : UnitView C) (text : Text) (l k : ℕ) (c : C)
      → locate tu (some text) (some text) l k ≡ ok c
      → (l ≤ max 1 (length (splitlines text)))
        × (k ≤ length_of (get_elem? (splitlines text) (l - 1)) + 1)
        × (symbol tu.kind_of (tu.from_location l k) ≡ ok c)
  unfolding locate line_length
  locate_found tu text l k c h =
      let counted = line_counted text in
      let total = max 1 (length (splitlines text)) in
      let width = length_of (get_elem? (splitlines text) (l - 1)) + 1 in
      elim (Bool-cases (ltb total l)) [
        | inl below_end ↦ absurd (ground (arith, counted, below_end, h))
        | inr in_text ↦ elim (Bool-cases (ltb width k)) [
          | inl beyond ↦ absurd (ground (arith, counted, in_text, beyond, h))
          | inr in_line ↦ (
            ground (arith, in_text),
            ground (arith, in_line),
            ground (arith, counted, in_text, in_line, h),
          )
        ]
      ]

  -- libclang is asked only for a position in the text: a line from 1 to the number of lines, of
  -- which an empty file has one, and a column from 1 to one past the end of the line; and the
  -- cursor that is returned is libclang's for that position and stands for a symbol.
  pub position_in_text :
      (tu : UnitView C) (text : Text) (line col : ℤ) (c : C)
      → cursor_at tu (some text) (some text) line col ≡ ok c
      → (l : ℕ) × (k : ℕ) × (line ≡ pos l)
        × (col ≡ pos k)
        × (1 ≤ l)
        × (l ≤ max 1 (length (splitlines text)))
        × (1 ≤ k)
        × (k ≤ length_of (get_elem? (splitlines text) (l - 1)) + 1)
        × (tu.from_location l k ≡ some c)
        × (tu.kind_of c ≡ meaningful)
  unfolding cursor_at
  position_in_text tu text (pos (suc l)) (pos (suc k)) c h =
      let (in_text, in_line, found) = locate_found tu text (suc l) (suc k) c h in
      let (asked, kind) = symbol_found tu.kind_of (tu.from_location (suc l) (suc k)) c found in
      (suc l, suc k, refl, refl, omega arith, in_text, omega arith, in_line, asked, kind)
  position_in_text tu text (pos zero) col c h = absurd (ground (arith, h))
  position_in_text tu text (pos (suc l)) (pos zero) c h = absurd (ground (arith, h))
  position_in_text tu text (pos (suc l)) (ℤ.negsuc k) c h = absurd (ground (arith, h))
  position_in_text tu text (ℤ.negsuc l) col c h = absurd (ground (arith, h))
