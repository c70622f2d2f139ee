-- ===== src/Prelude/Result.antt =====
-- A computation that may raise: Python's exceptions as values, with `do` blocks over them.
use mathlib.Core.Path.{◌≡◌, refl}
use mathlib.Core.Bool.{Bool, true, false}
use mathlib.Core.Logic.{◌⊎◌, inl, inr}

pub data Result {ℓ κ} (E : Type ℓ) (A : Type κ) : Type (ℓ ⊔ κ) where
  ok : A → Result E A
  err : E → Result E A

abbrev pub ◌>>=◌ {ε α β} :
    {E : Type ε} {A : Type α} {B : Type β} → Result E A → (A → Result E B) → Result E B
err problem >>= next = err problem
ok value >>= next = next value

infixl 5 ◌>>=◌
abbrev pub ◌>>◌ {ε β} : {E : Type ε} {B : Type β} → Result E (Unit {0}) → Result E B → Result E B
check >> next = check >>= (λ (_ : Unit {0}). next)

infixl 5 ◌>>◌
-- `if test: raise e`
abbrev pub raise_if {ℓ} : {E : Type ℓ} → Bool → E → Result E (Unit {0})
raise_if true e = err e
raise_if false e = ok tt

module _ {ε α} {E : Type ε} {A : Type α} where
  pub Result-cases : (m : Result E A) → ((a : A) × (m ≡ ok a)) ⊎ ((e : E) × (m ≡ err e))
  Result-cases (ok a) = inl (a, refl)
  Result-cases (err e) = inr (e, refl)

  -- A bind that succeeds went through a value, from which what comes next succeeds.
  pub bind-ok {κ} :
      {B : Type κ} (first : Result E A) (next : A → Result E B) {last : B}
      → (first >>= next) ≡ ok last
      → (middle : A) × (first ≡ ok middle) × (next middle ≡ ok last)
  bind-ok (err problem) next went = cc
  bind-ok (ok middle) next went = (middle, refl, went)

-- A guard that did not raise.
pub raise_if-ok {ε β} :
    {E : Type ε} {B : Type β} (test : Bool) (problem : E) (next : Result E B) {last : B}
    → (raise_if test problem >> next) ≡ ok last
    → (test ≡ false) × (next ≡ ok last)
raise_if-ok true problem next went = cc
raise_if-ok false problem next went = (refl, went)
