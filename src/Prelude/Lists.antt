-- ===== src/Prelude/Lists.antt =====
-- Lists measured by native numbers, and tested and filtered by Boolean functions.
use Prim.Native.Nat.{ℕ, suc, ◌+◌, ◌≤◌}
use Prim.Native.String.{String}
use mathlib.Core.Path.{◌≡◌, refl, sym, ap, ◌∙◌}
use mathlib.Core.Logic.Or
use mathlib.Core.Logic.{inl, inr, ◌≢◌, ◌⊎◌}
use text.Mathlib.TextEquality.{eq_iff}
use mathlib.Core.Bool.{Bool, true, false, ◌&&◌, ◌||◌, Bool-set, false≢true}
use mathlib.Core.List.{
  List, [], ◌∷◌, ◌++◌, Mem, mem-cons, mem-cons_self, mem-cons_of_mem, Mem-prop, not-mem-nil,
}
use native.Mathlib.Omega.{arith}
use text.Mathlib.Text.{◌==◌}
use platform_gitops.Prelude.Tests.{if◌then◌else◌, and→both, or→neither, Bool-cases}

module _ {ℓ} {A : Type ℓ} where
  abbrev pub length : List A → ℕ
  length [] = 0
  length (x ∷ xs) = suc (length xs)

  pub length-append : (xs ys : List A) → length (xs ++ ys) ≡ length xs + length ys
  length-append [] ys = omega arith
  length-append (x ∷ xs) ys = omega (arith, length-append xs ys)

  abbrev pub all : (A → Bool) → List A → Bool
  all p [] = true
  all p (x ∷ xs) = p x && all p xs

  abbrev pub any : (A → Bool) → List A → Bool
  any p [] = false
  any p (x ∷ xs) = p x || any p xs

  abbrev pub filter : (A → Bool) → List A → List A
  filter p [] = []
  filter p (x ∷ xs) = if p x then x ∷ filter p xs else filter p xs

  pub all-mem : (p : A → Bool) (xs : List A) (x : A) → all p xs ≡ true → Mem x xs → p x ≡ true
  all-mem p [] x h m = absurd (not-mem-nil m)
  all-mem p (y ∷ xs) x h m =
      let both = and→both (p y) (all p xs) h in
      Or.elim (Bool-set _ _) (mem-cons.0 m) (λ e. ap p e ∙ both.0) (all-mem p xs x both.1)

  pub any-mem : (p : A → Bool) (xs : List A) (x : A) → any p xs ≡ false → Mem x xs → p x ≡ false
  any-mem p [] x h m = absurd (not-mem-nil m)
  any-mem p (y ∷ xs) x h m =
      let both = or→neither (p y) (any p xs) h in
      Or.elim (Bool-set _ _) (mem-cons.0 m) (λ e. ap p e ∙ both.0) (any-mem p xs x both.1)

  pub length-filter-le : (p : A → Bool) (xs : List A) → length (filter p xs) ≤ length xs
  length-filter-le p [] = omega arith
  length-filter-le p (x ∷ xs) = ground (arith, length-filter-le p xs)

-- `name in names`, for a list of texts.
abbrev pub contains : String → List String → Bool
contains k = any (λ j. k == j)

-- The members of a set built from a list, each once.
abbrev pub distinct : List String → List String
distinct [] = []
distinct (k ∷ ks) = if contains k ks then distinct ks else k ∷ distinct ks

-- No text occurs twice.
abbrev pub IsDistinct : List String → Type 0
IsDistinct [] = Unit {0}
IsDistinct (k ∷ ks) = (contains k ks ≡ false) × IsDistinct ks

pub length-distinct-le : (ks : List String) → length (distinct ks) ≤ length ks
length-distinct-le [] = omega arith
length-distinct-le (k ∷ ks) = ground (arith, length-distinct-le ks)

-- A set that is as large as its list has no member twice in the list.
pub IsDistinct-of_length : (ks : List String) → length (distinct ks) ≡ length ks → IsDistinct ks
IsDistinct-of_length [] h = tt
IsDistinct-of_length (k ∷ ks) h = ground (arith, length-distinct-le ks, IsDistinct-of_length ks)

-- `set(a) == set(b)`
abbrev pub same_members : List String → List String → Bool
same_members ks js = all (λ k. contains k js) ks && all (λ j. contains j ks) js

module _ {ℓ} {A : Type ℓ} where
  -- A member that passes, where some member does.
  pub any-find : (p : A → Bool) (xs : List A) → any p xs ≡ true → (x : A) × Mem x xs × (p x ≡ true)
  any-find p [] h = cc
  any-find p (x ∷ xs) h = elim (Bool-cases (p x)) [
    | inl here ↦ (x, mem-cons_self, here)
    | inr there ↦ let (y, m, e) = any-find p xs (ground arith) in (y, mem-cons_of_mem x m, e)
  ]

  pub mem-filter :
      (p : A → Bool) (xs : List A) (x : A) → Mem x xs → p x ≡ true → Mem x (filter p xs)
  mem-filter p [] x m h = absurd (not-mem-nil m)
  mem-filter p (y ∷ xs) x m h = elim (Bool-cases (p y)) [
    | inl keep ↦ rw keep (
        Or.elim Mem-prop (mem-cons.0 m) (λ e. rw e mem-cons_self)
          (λ r. mem-cons_of_mem y (mem-filter p xs x r h)))
    | inr drop ↦ rw drop (
        Or.elim Mem-prop (mem-cons.0 m) (λ e. absurd (ground (arith, ap p e)))
          (λ r. mem-filter p xs x r h))
  ]

  pub mem_of_mem-filter : (p : A → Bool) (xs : List A) (x : A) → Mem x (filter p xs) → Mem x xs
  mem_of_mem-filter p [] x m = m
  mem_of_mem-filter p (y ∷ xs) x m = elim (Bool-cases (p y)) [
    | inl keep ↦
        Or.elim Mem-prop (mem-cons.0 (rw keep at m)) (λ e. rw e mem-cons_self)
          (λ r. mem-cons_of_mem y (mem_of_mem-filter p xs x r))
    | inr drop ↦ mem-cons_of_mem y (mem_of_mem-filter p xs x (rw drop at m))
  ]

  pub all-filter : (p : A → Bool) (xs : List A) → all p (filter p xs) ≡ true
  all-filter p [] = refl
  all-filter p (x ∷ xs) = ground (arith, all-filter p xs)

  -- What is filtered passes the test.
  pub passes_of_mem-filter : (p : A → Bool) (xs : List A) (x : A) → Mem x (filter p xs) → p x ≡ true
  passes_of_mem-filter p xs x m = all-mem p (filter p xs) x (all-filter p xs) m

  pub nil_of_length : (xs : List A) → length xs ≡ 0 → xs ≡ []
  nil_of_length [] h = refl
  nil_of_length (x ∷ xs) h = absurd (omega arith)

-- A text that a list does not contain is none of its members.
pub ne_of_not_contained :
    (k : String) (ks : List String) (j : String) → contains k ks ≡ false → Mem j ks → j ≢ k
ne_of_not_contained k ks j h m e =
    let miss = any-mem (λ i. k == i) ks j h m in
    absurd (false≢true (sym miss ∙ (eq_iff k j).1 (sym e)))

pub mem_of_filter-eq {ℓ} :
    {A : Type ℓ} (p : A → Bool) (xs : List A) (x : A) (rest : List A)
    → filter p xs ≡ x ∷ rest
    → Mem x xs
mem_of_filter-eq p xs x rest e = mem_of_mem-filter p xs x (rw e mem-cons_self)

-- What two equal sets contain.
pub contains-same_members :
    (ks js : List String) (k : String)
    → same_members ks js ≡ true
    → contains k ks ≡ true
    → contains k js ≡ true
contains-same_members ks js k same held =
    let (j, m, e) = any-find (λ j. k == j) ks held in
    let both = and→both (all (λ i. contains i js) ks) (all (λ i. contains i ks) js) same in
    rw ((eq_iff k j).0 e) (all-mem (λ i. contains i js) ks j both.0 m)

pub Mem-elim {ℓ κ} : {A : Type ℓ} {B : Type κ} {a : A} → Mem a [] → B
Mem-elim m = absurd (not-mem-nil m)

pub List-cases {ℓ} :
    {A : Type ℓ} (xs : List A) → (xs ≡ []) ⊎ ((x : A) × (rest : List A) × (xs ≡ x ∷ rest))
List-cases [] = inl refl
List-cases (x ∷ rest) = inr (x, rest, refl)

-- Every member of a list of which a predicate holds.
abbrev pub Each {ℓ} : {A : Type ℓ} → (A → Type 0) → List A → Type 0
Each P [] = Unit {0}
Each P (x ∷ xs) = P x × Each P xs
