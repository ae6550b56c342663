-- ===== src/Longhorn/Inversion.antt =====
-- What the parts of a check passed with, from what the whole passed with.
use platform_gitops.Prelude.{◌≡◌, refl, ◌⊎◌, inl, inr, Bool, true, false, List, [], ◌∷◌}
use platform_gitops.Longhorn.Candidate.{
  Reason, Check, pass, reject, ◌>>=◌, ◌>>◌, reject_if, the_only,
}

module _ {B : Type 0} {x : B} where
  pub bind-pass :
      {A : Type 0} (m : Check A) (f : A → Check B)
      → (m >>= f) ≡ pass x
      → (a : A) × (m ≡ pass a) × (f a ≡ pass x)
  bind-pass (pass a) f h = (a, refl, h)
  bind-pass (reject r) f h = cc

  pub seq-pass :
      (m : Check (Unit {0})) (k : Check B) → (m >> k) ≡ pass x → (m ≡ pass tt) × (k ≡ pass x)
  seq-pass (pass tt) k h = (refl, h)
  seq-pass (reject r) k h = cc

  pub reject_if-pass :
      (b : Bool) (r : Reason) (k : Check B)
      → (reject_if b r >> k) ≡ pass x
      → (b ≡ false) × (k ≡ pass x)
  reject_if-pass false r k h = (refl, h)
  reject_if-pass true r k h = cc

  pub the_only-pass :
      {A : Type 0} (xs : List A) (r : Reason) (f : A → Check B)
      → (the_only xs r >>= f) ≡ pass x
      → (a : A) × (xs ≡ a ∷ []) × (f a ≡ pass x)
  the_only-pass [] r f h = cc
  the_only-pass (a ∷ []) r f h = (a, refl, h)
  the_only-pass (a ∷ b ∷ xs) r f h = cc

pub reject_if-end : (b : Bool) (r : Reason) → reject_if b r ≡ pass tt → b ≡ false
reject_if-end false r h = refl
reject_if-end true r h = cc

pub Check-cases :
    {A : Type 0} (m : Check A) → ((a : A) × (m ≡ pass a)) ⊎ ((r : Reason) × (m ≡ reject r))
Check-cases (pass a) = inl (a, refl)
Check-cases (reject r) = inr (r, refl)
