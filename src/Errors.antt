-- ===== src/Errors.antt =====
-- src/cpp_mcp/core/error_envelope.py, its exception classes: an exception by its class. The text of a
-- message is not kept; where an envelope is built from it, it is an argument.
use cpp_mcp.Base.{Bool, true, false, ◌≡◌, refl, subst, ◌⊎◌, inl, inr}

-- The domain exceptions, the builtin ones that the modelled code raises, and `other` for the rest.
pub data ExceptionType : Type 0 where
  path_violation_error file_not_found_error_ invalid_position_error : ExceptionType
  invalid_range_error invalid_argument_error db_unreachable_error : ExceptionType
  dependency_missing_error fatal_parse_error config_error : ExceptionType
  read_only_violation_error query_parse_error query_unsupported_error : ExceptionType
  query_timeout_error : ExceptionType
  file_not_found_error value_error key_error : ExceptionType
  other : ExceptionType

pub data Result {ℓ} (A : Type ℓ) : Type ℓ where
  ok : A → Result A
  raise : ExceptionType → Result A

infixl 5 ◌>>=◌ ◌>>◌
abbrev pub ◌>>=◌ {ℓ κ} : {A : Type ℓ} {B : Type κ} → Result A → (A → Result B) → Result B
ok a >>= f = f a
raise e >>= f = raise e

abbrev pub ◌>>◌ {ℓ} : {B : Type ℓ} → Result (Unit {0}) → Result B → Result B
m >> k = m >>= λ _. k

-- `if b: raise e`
abbrev pub raise_if : Bool → ExceptionType → Result (Unit {0})
raise_if true e = raise e
raise_if false e = ok tt

abbrev pub is_ok {ℓ} : {A : Type ℓ} → Result A → Bool
is_ok (ok a) = true
is_ok (raise e) = false

-- To split on how a call ends and keep the equation.
pub Result-cases {ℓ} :
    {A : Type ℓ} (r : Result A) → ((a : A) × (r ≡ ok a)) ⊎ ((e : ExceptionType) × (r ≡ raise e))
Result-cases (ok a) = inl (a, refl)
Result-cases (raise e) = inr (e, refl)

-- What is returned, if anything is, satisfies a predicate.
abbrev pub Returns : {A : Type 0} → (A → Type 0) → Result A → Type 0
Returns {A} P r = (a : A) → r ≡ ok a → P a

pub Returns-ok : {A : Type 0} (P : A → Type 0) (a : A) → P a → Returns P (ok a)
Returns-ok P a h b e = let same : a ≡ b = cc e in subst P same h

pub Returns-bind :
    {A B : Type 0} (P : B → Type 0) (m : Result A) (k : A → Result B)
    → ((a : A) → m ≡ ok a → Returns P (k a))
    → Returns P (m >>= k)
Returns-bind P (ok a) k h b e = h a refl b e
Returns-bind P (raise e) k h b bad = absurd (cc bad)

-- What returned a value did so by its two parts.
pub >>=-eq-ok {ℓ κ} :
    {A : Type ℓ} {B : Type κ} (m : Result A) (k : A → Result B) {b : B}
    → (m >>= k) ≡ ok b
    → (a : A) × (m ≡ ok a) × (k a ≡ ok b)
>>=-eq-ok (ok a) k h = (a, refl, h)
>>=-eq-ok (raise e) k h = absurd (cc h)
