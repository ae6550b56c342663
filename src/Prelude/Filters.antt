-- ===== src/Prelude/Filters.antt =====
-- Lists of texts filtered by a test, and whether anything is left.
use mathlib.Core.Path.{◌≡◌, refl, ap}
use mathlib.Core.Logic.{inl, inr}
use mathlib.Core.Bool.{Bool, true, false}
use mathlib.Core.Option.{Option, none, some}
use mathlib.Core.List.{List, [], ◌∷◌}
use Prim.Native.String.{String}
use text.Mathlib.Text.{◌==◌}
use text.Mathlib.TextEquality.{eq_iff}
use native.Mathlib.Omega.{arith}
use platform_gitops.Prelude.Tests.{Bool-cases}
use platform_gitops.Prelude.Lists.{contains, filter}

abbrev pub is_empty {ℓ} : {A : Type ℓ} → List A → Bool
is_empty [] = true
is_empty (x ∷ xs) = false

abbrev pub is_some {ℓ} : {A : Type ℓ} → Option A → Bool
is_some none = false
is_some (some a) = true

-- A filter with nothing left, by what it drops.
pub dropped :
    (p : String → Bool) (xs : List String) (k : String)
    → is_empty (filter p xs) ≡ true
    → contains k xs ≡ true
    → p k ≡ false
dropped p [] k e h = absurd (ground (arith, h))
dropped p (x ∷ xs) k e h = elim (Bool-cases (k == x)) [
  | inl same ↦ ground (arith, e, ap p ((eq_iff k x).0 same))
  | inr other ↦ dropped p xs k (ground (arith, e)) (ground (arith, h, other))
]

pub nothing_left :
    (p : String → Bool) (xs : List String)
    → ((k : String) → contains k xs ≡ true → p k ≡ false)
    → is_empty (filter p xs) ≡ true
nothing_left p [] h = refl
nothing_left p (x ∷ xs) h =
    let here = h x (ground (arith, eq_iff x x)) in
    let rest = nothing_left p xs (λ k m. h k (ground (arith, m))) in ground (arith, here, rest)

pub contains-filter :
    (p : String → Bool) (xs : List String) (k : String)
    → contains k xs ≡ true
    → p k ≡ true
    → contains k (filter p xs) ≡ true
contains-filter p [] k h e = absurd (ground (arith, h))
contains-filter p (x ∷ xs) k h e = elim (Bool-cases (k == x)) [
  | inl same ↦ ground (arith, e, ap p ((eq_iff k x).0 same), same)
  | inr other ↦ ground (arith, h, other, contains-filter p xs k, e)
]
