-- ===== src/Navigation/Directive.antt =====
-- The pattern of a conditional directive in src/cpp_mcp/tools/get_preprocessor_state.py. Which characters
-- outside ASCII are letters or digits is a parameter.
use cpp_mcp.Base.{
  lower, ℕ, Text, List, [], ◌∷◌, map, drop, length, leb, ◌==◌, codes, starts_with, strip, lstrip,
  Option, none, some, Bool, true, not, ◌&&◌, ◌||◌, if◌then◌else◌,
}

pub data Word : Type 0 where
  ifdef ifndef if_ elif else_ endif : Word

-- The alternatives of the pattern, in its order.
abbrev pub words : List (Word × Text)
words =
    (ifdef, codes "ifdef")
    ∷ (ifndef, codes "ifndef")
    ∷ (if_, codes "if")
    ∷ (elif, codes "elif")
    ∷ (else_, codes "else")
    ∷ (endif, codes "endif")
    ∷ []

pub record Match : Type 0 where
  pub word : Word
  pub condition : Text

module _ (is_alnum : ℕ → Bool) where
  -- `\w`
  unfoldable pub is_word : ℕ → Bool
  is_word c =
      if leb 128 c
      then is_alnum c
      else (leb b'0' c && leb c b'9') || (leb b'a' (lower c) && leb (lower c) b'z') || c == b'_'

  -- `\b` after a letter
  unfoldable pub ends_word : Text → Bool
  unfolding is_word
  ends_word [] = true
  ends_word (c ∷ s) = not (is_word c)

  -- `(.*)`, which ends at a line feed
  unfoldable pub rest_of_line : Text → Text
  rest_of_line [] = []
  rest_of_line (c ∷ s) = let rest = rest_of_line s in if c == b'\n' then [] else c ∷ rest

  -- Letters outside ASCII that match without regard to case leave a word that is no directive.
  unfoldable pub match_word : List (Word × Text) → Text → Option Match
  unfolding starts_with ends_word rest_of_line strip
  match_word [] s = none
  match_word ((w, name) ∷ ws) s =
      let later = match_word ws s in
      let after = drop (length name) s in
      if starts_with name (map lower s) && ends_word after
      then some (record { word = w; condition = strip (rest_of_line after) })
      else later

  abbrev after_hash : Text → Option Match
  after_hash [] = none
  after_hash (c ∷ s) = if c == b'#' then match_word words (lstrip s) else none

  -- `ifdef_re.match(line_text)`
  unfoldable pub match_directive : Text → Option Match
  unfolding match_word lstrip
  match_directive line = after_hash (lstrip line)
