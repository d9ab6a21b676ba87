-- ===== src/Base/Results.antt =====
-- What a Go function comes back with: its result, an error value, or a run-time panic.
use mathlib.Core.Path.{◌≡◌, refl}

pub data Outcome {ℓ} (E : Type 0) (A : Type ℓ) : Type ℓ where
  panic : Outcome E A
  err : E → Outcome E A
  ok : A → Outcome E A

infixl 5 ◌>>=◌
abbrev pub ◌>>=◌ {ℓ κ} :
    {E : Type 0} {A : Type ℓ} {B : Type κ} → Outcome E A → (A → Outcome E B) → Outcome E B
panic >>= next = panic
err e >>= next = err e
ok value >>= next = next value

-- Inversion of a successful bind, where the parts stay shut.
pub >>=-eq-ok {ℓ κ} :
    {E : Type 0} {A : Type ℓ} {B : Type κ} (first : Outcome E A) (next : A → Outcome E B) {y : B}
    → (first >>= next) ≡ ok y
    → (x : A) × (first ≡ ok x) × (next x ≡ ok y)
>>=-eq-ok panic next e = cc
>>=-eq-ok (err x) next e = cc
>>=-eq-ok (ok x) next e = (x, refl, e)

-- To split on a computed outcome and keep the equation.
pub data OutcomeOf {ℓ} {E : Type 0} {A : Type ℓ} (r : Outcome E A) : Type ℓ where
  is_ok : (a : A) → r ≡ ok a → OutcomeOf r
  is_err : (e : E) → r ≡ err e → OutcomeOf r
  is_panic : r ≡ panic → OutcomeOf r

pub outcome_of {ℓ} : {E : Type 0} {A : Type ℓ} (r : Outcome E A) → OutcomeOf r
outcome_of (ok a) = is_ok a refl
outcome_of (err e) = is_err e refl
outcome_of panic = is_panic refl
