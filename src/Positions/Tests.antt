-- ===== src/Positions/Tests.antt =====
-- Runs of `cursor_at` of src/cpp_mcp/core/cursor.py, and the theorem at one.
use cpp_mcp.Base.{
  ℕ, ◌+◌, ◌-◌, ◌≤◌, Text, [], ◌∷◌, some, true, ◌≡◌, refl, pos, max, length, get_elem?,
}
use cpp_mcp.Errors.{ok, raise, invalid_position_error}
use cpp_mcp.Positions.{
  ends_line, lines_after, splitlines, count_lines, line_length, length_of, UnitView, meaningful,
  symbol, locate, cursor_at, position_in_text,
}

program : Unit {0}
unfolding ends_line lines_after splitlines count_lines line_length symbol locate cursor_at
program = tt

-- Two lines, the first with a carriage return and a line feed at its end.
abbrev text : Text
text = 105 ∷ 110 ∷ 13 ∷ 10 ∷ 120 ∷ 10 ∷ []

-- A unit whose cursor at a position is the sum of line and column.
abbrev tu : UnitView ℕ
tu = record { has_file = true; from_location = λ l k. some (l + k); kind_of = λ c. meaningful }

runs :
    (splitlines text ≡ (105 ∷ 110 ∷ []) ∷ (120 ∷ []) ∷ [])
    × (cursor_at tu (some text) (some text) (pos 1) (pos 4) ≡ raise invalid_position_error)
    × (cursor_at tu (some text) (some text) (pos 3) (pos 1) ≡ raise invalid_position_error)
    × (cursor_at tu (some []) (some []) (pos 1) (pos 1) ≡ ok 2)
unfolding program
runs = (refl, refl, refl, refl)

found : cursor_at tu (some text) (some text) (pos 2) (pos 2) ≡ ok 4
unfolding program
found = refl

position_in_text_example :
    (l : ℕ) × (k : ℕ) × (pos 2 ≡ pos l)
    × (pos 2 ≡ pos k)
    × (1 ≤ l)
    × (l ≤ max 1 (length (splitlines text)))
    × (1 ≤ k)
    × (k ≤ length_of (get_elem? (splitlines text) (l - 1)) + 1)
    × (tu.from_location l k ≡ some 4)
    × (tu.kind_of 4 ≡ meaningful)
position_in_text_example = position_in_text tu text (pos 2) (pos 2) 4 found
