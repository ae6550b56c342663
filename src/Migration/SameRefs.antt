-- ===== src/Migration/SameRefs.antt =====
-- compare_refs finds exactly the repositories with the same references, and push_mirror leads there.
use platform_gitops.Prelude.{
  String, ◌≡◌, ◌↔◌, ◌⊎◌, refl, sym, ap, ◌∙◌, eq_iff, true, false, not, ◌&&◌, Option, none, some,
  List, [], ◌∷◌, arith, filter, contains, inl, inr,
}
use platform_gitops.Prelude.Filters.{is_empty, is_some, dropped, nothing_left, contains-filter}
use platform_gitops.Prelude.Sorting.{insert_name, sorted}
use platform_gitops.Migration.Refs.{
  Refs, get, names, minus, same_id, differing, same_refs, default_verified, compared,
}

contains-names : (ref : String) (refs : Refs) → contains ref (names refs) ≡ is_some (get ref refs)
unfolding get
contains-names ref [] = refl
contains-names ref ((r, id) ∷ rest) =
    ground (arith, contains-names ref rest, eq_iff r ref, eq_iff ref r)

is_empty-insert_name : (a : String) (xs : List String) → is_empty (insert_name a xs) ≡ false
unfolding insert_name
is_empty-insert_name a [] = refl
is_empty-insert_name a (x ∷ xs) = ground arith

is_empty-sorted : (xs : List String) → is_empty (sorted xs) ≡ is_empty xs
unfolding sorted
is_empty-sorted [] = refl
is_empty-sorted (x ∷ xs) = is_empty-insert_name x (sorted xs)

same_id-eq : (a b : Option String) → same_id a b ≡ true → a ≡ b
same_id-eq none none h = refl
same_id-eq none (some b) h = absurd (ground (arith, h))
same_id-eq (some a) none h = absurd (ground (arith, h))
same_id-eq (some a) (some b) h = ap some ((eq_iff a b).0 h)

same_id_self : (a : Option String) → same_id a a ≡ true
same_id_self none = refl
same_id_self (some a) = (eq_iff a a).1 refl

module _ (s d : Refs) where
  -- Neither has a reference that the other lacks or has with another object.
  abbrev pub AreSame : Type 0
  AreSame = (ref : String) → get ref s ≡ get ref d

  none_lacking :
      (ref : String) (a b : Option String)
      → is_some a ≡ contains ref (names s)
      → is_some b ≡ contains ref (names d)
      → (contains ref (names s) ≡ true → contains ref (names d) ≡ true)
      → (contains ref (names d) ≡ true → contains ref (names s) ≡ true)
      → (contains ref (names s) ≡ true → contains ref (names d) ≡ true → same_id a b ≡ true)
      → a ≡ b
  none_lacking ref none none ea eb f g h = refl
  none_lacking ref none (some b) ea eb f g h = absurd (ground (arith, ea, eb, g))
  none_lacking ref (some a) none ea eb f g h = absurd (ground (arith, ea, eb, f))
  none_lacking ref (some a) (some b) ea eb f g h =
      same_id-eq (some a) (some b) (h (sym ea) (sym eb))

  pub same_refs-AreSame : (same_refs s d ≡ true) ↔ AreSame
  unfolding same_refs differing
  same_refs-AreSame = (
    λ h ref.
        none_lacking ref (get ref s) (get ref d) (sym (contains-names ref s))
          (sym (contains-names ref d))
          (λ k.
            ground (
              arith,
              dropped (λ r. not (contains r (names d))) (names s) ref (ground (arith, h)) k,
            ))
          (λ k.
            ground (
              arith,
              dropped (λ r. not (contains r (names s))) (names d) ref (ground (arith, h)) k,
            ))
          (λ j k. ground (
            arith,
            dropped (λ r. not (same_id (get r s) (get r d)))
                (filter (λ r. contains r (names d)) (names s)) ref (ground (arith, h))
                (contains-filter (λ r. contains r (names d)) (names s) ref j k),
          )),
    λ same. ground (
      arith,
      nothing_left (λ r. not (contains r (names d))) (names s)
          (λ k m. ground (arith, m, contains-names k s, contains-names k d, ap is_some (same k))),
      nothing_left (λ r. not (contains r (names s))) (names d)
          (λ k m. ground (arith, m, contains-names k s, contains-names k d, ap is_some (same k))),
      nothing_left (λ r. not (same_id (get r s) (get r d)))
          (filter (λ r. contains r (names d)) (names s))
          (λ k m. ground (arith, ap (same_id (get k s)) (same k), same_id_self (get k s))),
    ),
  )

  -- The default branch of the source is unknown, or the destination's is the same.
  default_verified_iff :
      (b₁ b₂ : Option String) → (default_verified b₁ b₂ ≡ true) ↔ ((b₁ ≡ none) ⊎ (b₁ ≡ b₂))
  unfolding default_verified
  default_verified_iff none b₂ = (λ h. inl refl, λ h. refl)
  default_verified_iff (some a) b₂ = (
    λ h. inr (same_id-eq (some a) b₂ h),
    λ h. elim h [
      | inl e ↦ absurd (ground (arith, e))
      | inr e ↦ ap (same_id (some a)) (sym e) ∙ same_id_self (some a)
    ],
  )

  compared-same_refs :
      (b₁ b₂ : Option String)
      → (compared s d b₁ b₂).verified ≡ (same_refs s d && default_verified b₁ b₂)
  unfolding compared same_refs
  compared-same_refs b₁ b₂ = ground (
    arith,
    is_empty-sorted (minus (names s) (names d)),
    is_empty-sorted (minus (names d) (names s)),
    is_empty-sorted (differing s d),
  )

  pub compared-AreSame :
      (b₁ b₂ : Option String)
      → ((compared s d b₁ b₂).verified ≡ true) ↔ (AreSame × ((b₁ ≡ none) ⊎ (b₁ ≡ b₂)))
  compared-AreSame b₁ b₂ = (
    λ h. (
      same_refs-AreSame.0 (ground (arith, h, compared-same_refs b₁ b₂)),
      (default_verified_iff b₁ b₂).0 (ground (arith, h, compared-same_refs b₁ b₂)),
    ),
    λ h. ground (
      arith,
      compared-same_refs b₁ b₂,
      same_refs-AreSame.1 h.0,
      (default_verified_iff b₁ b₂).1 h.1,
    ),
  )
