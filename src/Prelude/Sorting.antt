-- ===== src/Prelude/Sorting.antt =====
-- Python's `sorted` on texts, by code points.
use Prim.Native.Nat.{Ordering}
use Prim.Native.String.{String, compare}
use mathlib.Core.Path.{◌≡◌}
use mathlib.Core.Logic.{inl, inr}
use mathlib.Core.Bool.{Bool, true, false}
use mathlib.Core.List.{List, [], ◌∷◌}
use native.Mathlib.Omega.{arith}
use platform_gitops.Prelude.Tests.{if◌then◌else◌, Bool-cases}
use platform_gitops.Prelude.Lists.{contains}

abbrev pub before : String → String → Bool
before a b = elim (compare a b) [ Ordering.gt ↦ false | _ ↦ true ]

unfoldable pub insert_name : String → List String → List String
insert_name a [] = a ∷ []
insert_name a (b ∷ bs) =
    let later = insert_name a bs in if before a b then a ∷ b ∷ bs else b ∷ later

unfoldable pub sorted : List String → List String
unfolding insert_name
sorted [] = []
sorted (a ∷ rest) = insert_name a (sorted rest)

-- Sorting keeps the members of a list.
contains-insert_name :
    (n a : String) (xs : List String)
    → contains n (insert_name a xs) ≡ true
    → contains n (a ∷ xs) ≡ true
unfolding insert_name
contains-insert_name n a [] h = h
contains-insert_name n a (b ∷ xs) h = elim (Bool-cases (before a b)) [
  | inl e ↦ ground (arith, h, e)
  | inr e ↦ ground (arith, h, e, contains-insert_name n a xs)
]

pub contains-sorted :
    (n : String) (xs : List String) → contains n (sorted xs) ≡ true → contains n xs ≡ true
unfolding sorted
contains-sorted n [] h = h
contains-sorted n (a ∷ xs) h =
    ground (arith, contains-insert_name n a (sorted xs) h, contains-sorted n xs)
