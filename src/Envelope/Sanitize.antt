-- ===== src/Envelope/Sanitize.antt =====
-- `_sanitize_message` of src/cpp_mcp/core/error_envelope.py: the substitution of the regular expression
-- `/[^\s,"']+` as one scan over the message.
pub mod Redacted
pub mod Slash
use mathlib.Core.List.{append-nil, append_assoc}
use mathlib.Core.Path.{ap₂}
use cpp_mcp.Base.{
  is_space, ℕ, Text, List, [], ◌∷◌, ◌++◌, Option, none, some, Bool, true, false, ◌||◌, ◌==◌, ◌≟◌,
  list_eq, nat_eq, codes, starts_with, All, All-append, if◌then◌else◌, ◌≡◌, refl, ap, sym, ◌∙◌,
  arith, Bool-cases, inl, inr, elem, list_beq_iff, ==_iff,
}

-- What ends a path in a message: white space, a comma or a quote.
unfoldable pub ends_path : ℕ → Bool
unfolding is_space
ends_path c = is_space c || c == b',' || c == b'"' || c == 39

abbrev pub slash : ℕ
slash = b'/'

-- A slash alone is no match.
abbrev pub is_match : Text → Bool
is_match [] = false
is_match (c ∷ []) = false
is_match (c ∷ d ∷ s) = true

-- `_replace`: whether a path is one that the caller gave, or begins with one.
unfoldable pub echoed : List Text → Text → Bool
echoed [] candidate = false
echoed (allowed ∷ echo) candidate =
    if (candidate ≟ allowed) || starts_with allowed candidate then true else echoed echo candidate

abbrev pub redacted : Text
redacted = codes "<redacted>"

unfoldable pub replace : List Text → Text → Text
replace echo candidate =
    if is_match candidate then if echoed echo candidate then candidate else redacted else candidate

-- The scan: outside a path, or inside one that has been read so far.
unfoldable pub substitute : List Text → Option Text → Text → Text
substitute echo none [] = []
substitute echo none (c ∷ s) =
    let inside = substitute echo (some (slash ∷ [])) s in
    let outside = c ∷ substitute echo none s in if c == slash then inside else outside
substitute echo (some path) [] = replace echo path
substitute echo (some path) (c ∷ s) =
    let ended = replace echo path ++ (c ∷ substitute echo none s) in
    let longer = substitute echo (some (path ++ c ∷ [])) s in if ends_path c then ended else longer

unfoldable pub sanitize_message : List Text → Text → Text
unfolding substitute
sanitize_message echo message = substitute echo none message

-- The matches of the expression in a text, by the same scan.
abbrev pub report : Text → List Text → List Text
report path rest = if is_match path then path ∷ rest else rest

unfoldable pub find_paths : Option Text → Text → List Text
find_paths none [] = []
find_paths none (c ∷ s) =
    let inside = find_paths (some (slash ∷ [])) s in
    let outside = find_paths none s in if c == slash then inside else outside
find_paths (some path) [] = report path []
find_paths (some path) (c ∷ s) =
    let ended = report path (find_paths none s) in
    let longer = find_paths (some (path ++ c ∷ [])) s in if ends_path c then ended else longer
