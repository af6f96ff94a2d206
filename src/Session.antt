-- ===== src/Session.antt =====
-- `ClangSession._get_or_parse_sync` of src/cpp_mcp/core/clang_session.py: the cache in front of libclang,
-- with the parse options in the key.
pub mod Discovery
pub mod Lifecycle
mod Tests
use cpp_mcp.Base.{
  ℕ, Text, List, [], ◌∷◌, ◌++◌, Option, Bool, false, not, keep, codes, starts_with,
  starts_with-append, decimal, decimal_inj, ◌==◌, ==_iff, if◌then◌else◌, ◌≡◌, ◌≢◌, refl, ap, sym,
  ◌∙◌, arith, All, Bool-cases, inl, inr, length, length-append,
}
use cpp_mcp.Errors.{Result}
use cpp_mcp.Cache.{TuCache, Stat, get_or_parse, ParserFn}
use cpp_mcp.Cache.Keys.{Host, make_key, CacheKey}

abbrev pub options_prefix : Text
options_prefix = codes "__options="

-- `f"__options={options}"`
abbrev pub options_flag : ℕ → Text
options_flag options = options_prefix ++ decimal options

unfoldable pub effective_flags : List Text → ℕ → List Text
effective_flags flags options = if options == 0 then flags else flags ++ options_flag options ∷ []

-- The flags that the parser hands on.
unfoldable pub strip_options : List Text → List Text
strip_options = keep (λ x. not (starts_with options_prefix x))

-- `index.parse(path, flags, options)` is libclang's.
abbrev pub IndexParse : Type 0 → Type 0
IndexParse TU = Text → List Text → ℕ → Result TU

unfoldable pub session_parser : {TU : Type 0} → IndexParse TU → ℕ → ParserFn TU
unfolding strip_options
session_parser parse options path flags = parse path (strip_options flags) options

unfoldable pub get_or_parse_sync :
    {TU : Type 0}
    → Host
    → IndexParse TU
    → Stat
    → Stat
    → Text
    → Option Text
    → List Text
    → ℕ
    → TuCache TU
    → TuCache TU × Result (TU × Bool)
get_or_parse_sync host parse before after file_path build_path flags options c =
    get_or_parse host before after file_path build_path (effective_flags flags options)
      (session_parser parse options) c

-- A flag of the caller that does not look like the options flag.
abbrev pub IsPlain : Text → Type 0
IsPlain flag = starts_with options_prefix flag ≡ false

strip-plain : (flags : List Text) → All IsPlain flags → strip_options flags ≡ flags
unfolding strip_options
strip-plain [] h = refl
strip-plain (f ∷ flags) h = rw (h.0, strip-plain flags h.1) refl

strip-append_option :
    (flags : List Text) (options : ℕ)
    → All IsPlain flags
    → strip_options (flags ++ options_flag options ∷ []) ≡ flags
unfolding strip_options
strip-append_option [] options h = rw (starts_with-append options_prefix (decimal options)) refl
strip-append_option (f ∷ flags) options h = rw (h.0, strip-append_option flags options h.1) refl

-- When no flag of the caller starts with "__options=", libclang is called with exactly the caller's
-- flags and options: the marker that is put into the cache key does not reach it.
pub parser_gets_flags :
    {TU : Type 0} (parse : IndexParse TU) (path : Text) (flags : List Text) (options : ℕ)
    → All IsPlain flags
    → session_parser parse options path (effective_flags flags options) ≡ parse path flags options
unfolding session_parser effective_flags
parser_gets_flags parse path flags options h = elim (Bool-cases (options == 0)) [
  | inl e ↦ rw e (ap (λ f. parse path f options) (strip-plain flags h))
  | inr e ↦ rw e (ap (λ f. parse path f options) (strip-append_option flags options h))
]

append_cancel {ℓ} : {A : Type ℓ} (xs : List A) {ys zs : List A} → xs ++ ys ≡ xs ++ zs → ys ≡ zs
append_cancel [] h = h
append_cancel (x ∷ xs) h = append_cancel xs (cc h)

no_marker : (flags : List Text) (x : Text) → flags ≢ flags ++ x ∷ []
no_marker flags x h = absurd (omega (arith, ap length h, length-append flags (x ∷ [])))

effective_flags_inj :
    (flags : List Text) (m n : ℕ) → effective_flags flags m ≡ effective_flags flags n → m ≡ n
unfolding effective_flags
effective_flags_inj flags m n = elim (Bool-cases (m == 0)) [
  | inl m0 ↦ elim (Bool-cases (n == 0)) [
    | inl n0 ↦ λ h. ((==_iff m 0).0 m0) ∙ sym ((==_iff n 0).0 n0)
    | inr n1 ↦ rw (m0, n1) (λ h. absurd (no_marker flags (options_flag n) h))
  ]
  | inr m1 ↦ elim (Bool-cases (n == 0)) [
    | inl n0 ↦ rw (m1, n0) (λ h. absurd (no_marker flags (options_flag m) (sym h)))
    | inr n1 ↦
        rw (m1, n1)
          (λ h. decimal_inj m n (append_cancel options_prefix (cc (append_cancel flags h))))
  ]
]

-- The same file, build directory and flags under different parse options never share an entry of
-- the cache, if the digest tells the two lists of flags apart.
pub options_have_own_keys :
    (host : Host) (file : Text) (build : Option Text) (flags : List Text) (m n : ℕ)
    → (host.flags_sha1 (effective_flags flags m) ≡ host.flags_sha1 (effective_flags flags n)
        → effective_flags flags m ≡ effective_flags flags n)
    → m ≢ n
    → make_key host file build (effective_flags flags m)
      ≢ make_key host file build (effective_flags flags n)
unfolding make_key
options_have_own_keys host file build flags m n injective ne h =
    ne (effective_flags_inj flags m n (injective (ap (λ (k : CacheKey). k.flags_sha1) h)))
