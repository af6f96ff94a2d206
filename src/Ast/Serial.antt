-- ===== src/Ast/Serial.antt =====
-- `len(json.dumps(node))` for the node of src/cpp_mcp/core/ast_walker.py: the length of the JSON
-- text with the default separators and `ensure_ascii`.
use Prim.Native.Char.{code}
use cpp_mcp.Base.{
  ℕ, zero, suc, ◌+◌, ◌/◌, ◌<◌, String, ◌&&◌, ◌||◌, ltb, leb, ◌==◌, if◌then◌else◌, ◌≡◌, arith,
}
use cpp_mcp.Ast.Cursor.{Node}

-- Escapes: two characters for the named ones, six for the rest outside printable ASCII, and a
-- pair of surrogates beyond the basic plane.
char_length : ℕ → ℕ
char_length c =
    if c == b'"' || c == 92 || c == 8 || c == 9 || c == 10 || c == 12 || c == 13
    then 2
    else if leb 32 c && leb c 126
    then 1
    else if ltb c 0x10000
    then 6
    else 12

chars_length : String → ℕ
chars_length String.[] = 0
chars_length (String.◌∷◌ c s) = char_length (code c) + chars_length s

unfoldable pub string_length : String → ℕ
unfolding char_length chars_length
string_length s = chars_length s + 2

-- The decimal digits of a number, on fuel above the number.
decimal_from : ℕ → ℕ → ℕ
decimal_from zero n = 0
decimal_from (suc fuel) n =
    let rest = decimal_from fuel (n / 10) in if ltb n 10 then 1 else rest + 1

unfoldable pub decimal_length : ℕ → ℕ
unfolding decimal_from
decimal_length n = decimal_from (suc n) n

fuel_enough : (f g n : ℕ) → n < f → n < g → decimal_from f n ≡ decimal_from g n
unfolding decimal_from
fuel_enough zero g n h k = absurd (omega arith)
fuel_enough (suc f) zero n h k = absurd (omega arith)
fuel_enough (suc f) (suc g) n h k = ground (arith, fuel_enough f g (n / 10))

-- The fuel never runs out: the length obeys the equation of the digits.
pub decimal_length_lem :
    (n : ℕ) → decimal_length n ≡ (if ltb n 10 then 1 else decimal_length (n / 10) + 1)
unfolding decimal_length
decimal_length_lem n = ground (arith, fuel_enough n (suc (n / 10)) (n / 10))

-- `"key": value` with the comma and the space that follow it.
abbrev item : String → ℕ → ℕ
item key value = string_length key + 2 + value + 2

-- Two braces, and no comma after the last item.
unfoldable pub dumps_length : Node → ℕ
unfolding string_length decimal_length
dumps_length n =
    item "id" (decimal_length n.id)
    + item "kind" (string_length n.kind)
    + item "spelling" (string_length n.spelling)
    + item "usr" (string_length n.usr)
    + item "type" (string_length n.type_spelling)
    + item "storage_class" (string_length n.storage_class)
    + item "start_line" (decimal_length n.start_line)
    + item "start_col" (decimal_length n.start_col)
    + item "end_line" (decimal_length n.end_line)
    + item "end_col" (decimal_length n.end_col)
