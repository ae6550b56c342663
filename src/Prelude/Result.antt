-- ===== src/Prelude/Result.antt =====
-- Code that may raise: a value or the error raised.
use mathlib.Core.Path.{◌≡◌, refl}
use mathlib.Core.Logic.{◌⊎◌, inl, inr}
use mathlib.Core.Bool.{Bool, true, false}

pub data Result {ℓ} (E : Type ℓ) (A : Type ℓ) : Type ℓ where
  ok : A → Result E A
  err : E → Result E A

module _ {ℓ} {E A B : Type ℓ} where
  infixl 5 ◌>>=◌
  abbrev pub ◌>>=◌ : Result E A → (A → Result E B) → Result E B
  ok a >>= f = f a
  err e >>= f = err e

  pub bind-ok :
      (m : Result E A) (f : A → Result E B) {b : B}
      → (m >>= f) ≡ ok b
      → (a : A) × (m ≡ ok a) × (f a ≡ ok b)
  bind-ok (ok a) f h = (a, refl, h)
  bind-ok (err e) f h = cc

module _ {ℓ} {E A : Type ℓ} where
  pub Result-cases : (m : Result E A) → ((a : A) × (m ≡ ok a)) ⊎ ((e : E) × (m ≡ err e))
  Result-cases (ok a) = inl (a, refl)
  Result-cases (err e) = inr (e, refl)

-- `if bad: raise error`
abbrev pub raise_if : {E : Type 0} → Bool → E → Result E (Unit {0})
raise_if true e = err e
raise_if false e = ok tt

infixl 5 ◌>>◌
abbrev pub ◌>>◌ : {E B : Type 0} → Result E (Unit {0}) → Result E B → Result E B
m >> k = m >>= λ _. k
