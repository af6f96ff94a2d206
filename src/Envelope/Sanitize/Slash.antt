-- ===== src/Envelope/Sanitize/Slash.antt =====
-- What the argument "/" does to the sanitizer of src/cpp_mcp/core/error_envelope.py.
use cpp_mcp.Base.{
  Text, List, [], ◌∷◌, ◌++◌, none, some, Bool, true, false, ◌||◌, ◌==◌, ◌≟◌, list_eq, nat_eq,
  starts_with, All, if◌then◌else◌, ◌≡◌, refl, arith, Bool-cases, inl, inr, elem, list_beq_iff,
}
use cpp_mcp.Envelope.Sanitize.{ends_path, slash, echoed, sanitize_message, report, find_paths}
use cpp_mcp.Envelope.Sanitize.Redacted.{echoed_message_is_kept}

if_or : (b c : Bool) → (if b || true then true else c) ≡ true
if_or true c = refl
if_or false c = refl

slash_echoes :
    (echo : List Text) (w : Text) → elem (slash ∷ []) echo ≡ true → echoed echo (slash ∷ w) ≡ true
unfolding echoed starts_with
slash_echoes [] w h = h
slash_echoes (a ∷ echo) w h = elim (Bool-cases ((slash ∷ []) ≟ a)) [
  | inl e ↦
      let same : slash ∷ [] ≡ a = (list_beq_iff (slash ∷ []) a).0 e in
      rw (← same) (if_or ((slash ∷ w) ≟ (slash ∷ [])) (echoed echo (slash ∷ w)))
  | inr e ↦ let rest = slash_echoes echo w (ground (arith, e)) in ground (arith, rest)
]

module _ (echo : List Text) (h : elem (slash ∷ []) echo ≡ true) where
  report-slash :
      (w : Text) (rest : List Text)
      → All (λ p. echoed echo p ≡ true) rest
      → All (λ p. echoed echo p ≡ true) (report (slash ∷ w) rest)
  report-slash [] rest k = k
  report-slash (d ∷ w) rest k = (slash_echoes echo (d ∷ w) h, k)

  mutual
    unfolding find_paths

    slash_outside : (s : Text) → All (λ p. echoed echo p ≡ true) (find_paths none s)
    slash_outside [] = tt
    slash_outside (c ∷ s) = elim (Bool-cases (c == slash)) [
      | inl e ↦ rw e (slash_inside s [])
      | inr e ↦ rw e (slash_outside s)
    ]

    slash_inside : (s w : Text) → All (λ p. echoed echo p ≡ true) (find_paths (some (slash ∷ w)) s)
    slash_inside [] w = report-slash w [] tt
    slash_inside (c ∷ s) w = elim (Bool-cases (ends_path c)) [
      | inl e ↦ rw e (report-slash w (find_paths none s) (slash_outside s))
      | inr e ↦ rw e (slash_inside s (w ++ c ∷ []))
    ]

  -- A caller who gives "/" as an argument gets every message unredacted.
  pub slash_argument_redacts_nothing : (message : Text) → sanitize_message echo message ≡ message
  slash_argument_redacts_nothing message =
      echoed_message_is_kept echo message (slash_outside message)
