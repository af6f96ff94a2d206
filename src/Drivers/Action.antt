-- ===== src/Drivers/Action.antt =====
-- A call on the state of a database: the state after it, and its answer or what it raises.
use cpp_mcp.Base.{List, [], ◌∷◌, ◌≡◌, refl}
use cpp_mcp.Errors.{ExceptionType, Result, ok, raise}

abbrev pub Action : Type 0 → Type 0 → Type 0
Action S A = S → S × Result A

abbrev resume : {S A B : Type 0} → S × Result A → (A → Action S B) → S × Result B
resume (s, ok a) f = f a s
resume (s, raise e) f = (s, raise e)

abbrev pub pure : {S A : Type 0} → A → Action S A
pure a s = (s, ok a)

infixl 5 ◌>>=◌ ◌>>◌
abbrev pub ◌>>=◌ : {S A B : Type 0} → Action S A → (A → Action S B) → Action S B
◌>>=◌ m f s = resume (m s) f

abbrev pub ◌>>◌ : {S B : Type 0} → Action S (Unit {0}) → Action S B → Action S B
m >> k = m >>= λ _. k

-- `for x in xs: f(x)`
abbrev pub for_each : {S A : Type 0} → (A → Action S (Unit {0})) → List A → Action S (Unit {0})
for_each f [] = pure tt
for_each f (x ∷ xs) = do f x; for_each f xs

resume_ok :
    {S A B : Type 0} (x : S × Result A) (f : A → Action S B) (a : A)
    → x.1 ≡ ok a
    → resume x f ≡ f a x.0
resume_ok (s, ok b) f a h = let same : b ≡ a = cc h in rw same refl
resume_ok (s, raise e) f a h = absurd (cc h)

resume_raise :
    {S A B : Type 0} (x : S × Result A) (f : A → Action S B) (e : ExceptionType)
    → x.1 ≡ raise e
    → resume x f ≡ (x.0, raise e)
resume_raise (s, ok b) f e h = absurd (cc h)
resume_raise (s, raise d) f e h = let same : d ≡ e = cc h in rw same refl

pub >>=-ok :
    {S A B : Type 0} (m : Action S A) (f : A → Action S B) (s : S) (a : A)
    → (m s).1 ≡ ok a
    → (m >>= f) s ≡ f a (m s).0
>>=-ok m f s a h = resume_ok (m s) f a h

pub >>=-raise :
    {S A B : Type 0} (m : Action S A) (f : A → Action S B) (s : S) (e : ExceptionType)
    → (m s).1 ≡ raise e
    → (m >>= f) s ≡ ((m s).0, raise e)
>>=-raise m f s e h = resume_raise (m s) f e h
