-- ===== src/Base/Outcome.antt =====
-- Errors as values: what a function returns, or the error that it throws.
use mathlib.Core.Path.{◌≡◌, refl}
use mathlib.Core.Logic.{◌⊎◌, inl, inr}
use mathlib.Core.Bool.{Bool, true, false}

pub data Outcome {ℓ} (E : Type ℓ) (A : Type ℓ) : Type ℓ where
  ok : A → Outcome E A
  throw : E → Outcome E A

infixl 5 ◌>>=◌ ◌>>◌
abbrev pub ◌>>=◌ {ℓ} : {E A B : Type ℓ} → Outcome E A → (A → Outcome E B) → Outcome E B
throw e >>= f = throw e
ok a >>= f = f a

-- A chain that returns has returned at each of its two steps.
pub >>=-eq-ok {ℓ} :
    {E A B : Type ℓ} (first : Outcome E A) (later : A → Outcome E B) {result : B}
    → (first >>= later) ≡ ok result
    → (value : A) × (first ≡ ok value) × (later value ≡ ok result)
>>=-eq-ok (throw e) later runs = cc
>>=-eq-ok (ok value) later runs = (value, refl, runs)

abbrev pub ◌>>◌ : {E B : Type 0} → Outcome E Unit → Outcome E B → Outcome E B
m >> k = m >>= λ _. k

-- `if (c) throw e;`
abbrev pub throw_if : {E : Type 0} → Bool → E → Outcome E Unit
throw_if true e = throw e
throw_if false e = ok tt

-- Behind a check that returns, its test has failed.
pub throw_if-passes :
    {E B : Type 0} (b : Bool) (e : E) (k : Outcome E B) {result : B}
    → (throw_if b e >> k) ≡ ok result
    → (b ≡ false) × (k ≡ ok result)
throw_if-passes true e k h = cc
throw_if-passes false e k h = (refl, h)

pub Outcome-cases {ℓ} :
    {E A : Type ℓ} (o : Outcome E A) → ((a : A) × (o ≡ ok a)) ⊎ ((e : E) × (o ≡ throw e))
Outcome-cases (ok a) = inl (a, refl)
Outcome-cases (throw e) = inr (e, refl)
