-- ===== src/Prelude/Sequences.antt =====
-- Prefixes of lists, and laws of appending, where the library's go by another ℕ.
use Prim.Native.Nat.{ℕ, zero, suc, ◌≤◌, min}
use mathlib.Core.Path.{◌≡◌, refl, ap}
use mathlib.Core.List.{List, [], ◌∷◌, ◌++◌}
use native.Mathlib.Omega.{arith}
use platform_gitops.Prelude.Lists.{length}

module _ {ℓ} {A : Type ℓ} where
  unfoldable pub take : ℕ → List A → List A
  take zero xs = []
  take (suc n) [] = []
  take (suc n) (x ∷ xs) = x ∷ take n xs

  unfoldable pub drop : ℕ → List A → List A
  drop zero xs = xs
  drop (suc n) [] = []
  drop (suc n) (x ∷ xs) = drop n xs

  pub take-drop : (n : ℕ) (xs : List A) → take n xs ++ drop n xs ≡ xs
  unfolding take drop
  take-drop zero xs = refl
  take-drop (suc n) [] = refl
  take-drop (suc n) (x ∷ xs) = ap (λ r. x ∷ r) (take-drop n xs)

  pub length-take : (n : ℕ) (xs : List A) → length (take n xs) ≡ min n (length xs)
  unfolding take
  length-take zero xs = omega arith
  length-take (suc n) [] = omega arith
  length-take (suc n) (x ∷ xs) = omega (arith, length-take n xs)

  pub take_all : (n : ℕ) (xs : List A) → length xs ≤ n → take n xs ≡ xs
  unfolding take
  take_all zero [] h = refl
  take_all zero (x ∷ xs) h = absurd (omega arith)
  take_all (suc n) [] h = refl
  take_all (suc n) (x ∷ xs) h = ap (λ r. x ∷ r) (take_all n xs (omega arith))

  pub append_nil : (xs : List A) → xs ++ [] ≡ xs
  append_nil [] = refl
  append_nil (x ∷ xs) = ap (λ r. x ∷ r) (append_nil xs)

  pub append_assoc : (xs ys zs : List A) → (xs ++ ys) ++ zs ≡ xs ++ (ys ++ zs)
  append_assoc [] ys zs = refl
  append_assoc (x ∷ xs) ys zs = ap (λ r. x ∷ r) (append_assoc xs ys zs)
