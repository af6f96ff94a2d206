-- ===== src/Envelope/Sanitize/Redacted.antt =====
-- What is left in a sanitized message (src/cpp_mcp/core/error_envelope.py).
use mathlib.Core.List.{append-nil, append_assoc}
use mathlib.Core.Path.{ap₂}
use cpp_mcp.Base.{
  ℕ, Text, List, [], ◌∷◌, ◌++◌, none, some, true, false, ◌==◌, list_eq, nat_eq, All, All-append,
  ◌≡◌, refl, ap, sym, ◌∙◌, Bool-cases, inl, inr, ==_iff,
}
use cpp_mcp.Envelope.Sanitize.{
  ends_path, slash, echoed, redacted, replace, substitute, sanitize_message, report, find_paths,
}

abbrev Unended : Text → Type 0
Unended w = All (λ c. ends_path c ≡ false) w

find_longer :
    (path w s : Text)
    → Unended w
    → find_paths (some path) (w ++ s) ≡ find_paths (some (path ++ w)) s
unfolding find_paths
find_longer path [] s h = rw append-nil refl
find_longer path (c ∷ w) s h =
    rw (h.0) (find_longer (path ++ c ∷ []) w s h.1 ∙ rw append_assoc refl)

-- A path in front of an end, or at the end of the text, is found first.
find_path_end : (w : Text) → Unended w → find_paths none (slash ∷ w) ≡ report (slash ∷ w) []
unfolding find_paths
find_path_end w h =
    ap (find_paths (some (slash ∷ []))) (sym (append-nil w)) ∙ find_longer (slash ∷ []) w [] h

find_path_before :
    (w : Text) (c : ℕ) (s : Text)
    → Unended w
    → ends_path c ≡ true
    → find_paths none ((slash ∷ w) ++ (c ∷ s)) ≡ report (slash ∷ w) (find_paths none s)
unfolding find_paths
find_path_before w c s h e = find_longer (slash ∷ []) w (c ∷ s) h ∙ rw e refl

find_redacted : (s : Text) → find_paths none (redacted ++ s) ≡ find_paths none s
unfolding find_paths
find_redacted s = refl

not-ends-slash : ends_path slash ≡ false
unfolding ends_path
not-ends-slash = refl

ends-not-slash : (c : ℕ) → ends_path c ≡ true → (c == slash) ≡ false
ends-not-slash c h = elim (Bool-cases (c == slash)) [
  | inr e ↦ e
  | inl e ↦ absurd (cc (h, not-ends-slash, ap ends_path ((==_iff c slash).0 e)))
]

find_skip : (c : ℕ) (s : Text) → (c == slash) ≡ false → find_paths none (c ∷ s) ≡ find_paths none s
unfolding find_paths
find_skip c s h = rw h refl

find_nil : find_paths none [] ≡ []
unfolding find_paths
find_nil = refl

module _ (echo : List Text) where
  abbrev Kept : Text → Type 0
  Kept path = echoed echo path ≡ true

  replace_at_end : (w : Text) → Unended w → All Kept (find_paths none (replace echo (slash ∷ w)))
  unfolding replace
  replace_at_end [] h = rw (find_path_end [] h) tt
  replace_at_end (d ∷ w) h = elim (Bool-cases (echoed echo (slash ∷ d ∷ w))) [
    | inl e ↦ rw (e, find_path_end (d ∷ w) h) (e, tt)
    | inr e ↦ rw e (rw (← append-nil redacted) (rw (find_redacted []) (unfold find_paths in tt)))
  ]

  replace_before :
      (w : Text) (c : ℕ) (s : Text)
      → Unended w
      → ends_path c ≡ true
      → All Kept (find_paths none s)
      → All Kept (find_paths none (replace echo (slash ∷ w) ++ (c ∷ s)))
  unfolding replace
  replace_before [] c s h e k = rw (find_path_before [] c s h e) k
  replace_before (d ∷ w) c s h e k = elim (Bool-cases (echoed echo (slash ∷ d ∷ w))) [
    | inl q ↦ rw (q, find_path_before (d ∷ w) c s h e) (q, k)
    | inr q ↦ rw (q, find_redacted (c ∷ s), find_skip c s (ends-not-slash c e)) k
  ]

  mutual
    unfolding substitute

    outside_safe : (s : Text) → All Kept (find_paths none (substitute echo none s))
    outside_safe [] = rw find_nil tt
    outside_safe (c ∷ s) = elim (Bool-cases (c == slash)) [
      | inl e ↦ rw e (inside_safe s [] tt)
      | inr e ↦ rw (e, find_skip c (substitute echo none s) e) (outside_safe s)
    ]

    inside_safe :
        (s w : Text) → Unended w → All Kept (find_paths none (substitute echo (some (slash ∷ w)) s))
    inside_safe [] w h = replace_at_end w h
    inside_safe (c ∷ s) w h = elim (Bool-cases (ends_path c)) [
      | inl e ↦ rw e (replace_before w c (substitute echo none s) h e (outside_safe s))
      | inr e ↦
          rw e (
            inside_safe s (w ++ c ∷ [])
              (All-append (λ d. ends_path d ≡ false) w (c ∷ []) h (e, tt)))
    ]

  -- Every absolute path that is left in a sanitized message is one that the caller gave, or begins
  -- with one.
  pub sanitized_paths_are_echoed :
      (message : Text)
      → All (λ path. echoed echo path ≡ true) (find_paths none (sanitize_message echo message))
  unfolding sanitize_message
  sanitized_paths_are_echoed message = outside_safe message

  replace-Kept :
      (path : Text) (rest : List Text) → All Kept (report path rest) → replace echo path ≡ path
  unfolding replace
  replace-Kept [] rest k = refl
  replace-Kept (c ∷ []) rest k = refl
  replace-Kept (c ∷ d ∷ w) rest k = rw (k.0) refl

  report_rest : (path : Text) (rest : List Text) → All Kept (report path rest) → All Kept rest
  report_rest [] rest k = k
  report_rest (c ∷ []) rest k = k
  report_rest (c ∷ d ∷ w) rest k = k.1

  mutual
    unfolding substitute find_paths

    outside_same : (s : Text) → All Kept (find_paths none s) → substitute echo none s ≡ s
    outside_same [] k = refl
    outside_same (c ∷ s) k = elim (Bool-cases (c == slash)) [
      | inl e ↦
          rw e
            (inside_same s (slash ∷ []) (rw e at k) ∙ ap (λ x. x ∷ s) (sym ((==_iff c slash).0 e)))
      | inr e ↦ rw e (ap (λ t. c ∷ t) (outside_same s (rw e at k)))
    ]

    inside_same :
        (s path : Text)
        → All Kept (find_paths (some path) s)
        → substitute echo (some path) s ≡ path ++ s
    inside_same [] path k = replace-Kept path [] k ∙ sym (append-nil path)
    inside_same (c ∷ s) path k = elim (Bool-cases (ends_path c)) [
      | inl e ↦
          let k' : All Kept (report path (find_paths none s)) = rw e at k in
          rw e (
            ap₂ (λ x y. x ++ (c ∷ y)) (replace-Kept path (find_paths none s) k')
              (outside_same s (report_rest path (find_paths none s) k')))
      | inr e ↦ rw e (inside_same s (path ++ c ∷ []) (rw e at k) ∙ append_assoc path (c ∷ []) s)
    ]

  -- A message whose paths were all given by the caller is sent as it is.
  pub echoed_message_is_kept :
      (message : Text)
      → All (λ path. echoed echo path ≡ true) (find_paths none message)
      → sanitize_message echo message ≡ message
  unfolding sanitize_message
  echoed_message_is_kept message k = outside_same message k

  -- To sanitize a message again changes nothing.
  pub sanitize_message_idem :
      (message : Text)
      → sanitize_message echo (sanitize_message echo message) ≡ sanitize_message echo message
  sanitize_message_idem message =
      echoed_message_is_kept (sanitize_message echo message) (sanitized_paths_are_echoed message)
