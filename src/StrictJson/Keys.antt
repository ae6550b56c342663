-- ===== src/StrictJson/Keys.antt =====
-- Exactly the documents with no repeated key, infinite number or constant, and within the limits,
-- are loaded.
use platform_gitops.Prelude.{
  ◌≤◌, ◌≡◌, ◌↔◌, inl, inr, refl, arith, none, some, String, true, false, List, [], ◌∷◌, contains,
  IsDistinct, all, not, ◌&&◌, eq_iff, ap, subst, sym, Bool-cases,
}
use platform_gitops.Prelude.Result.{Result, ok, err, ◌>>◌}
use platform_gitops.StrictJson.Document.{
  Value, scalar, float, constant, array, object, Items, no_items, item, Fields, no_members, member,
  JsonError, keys, reject_duplicates, apply_hooks, hook_items, hook_fields,
}
use platform_gitops.StrictJson.Validate.{
  Decoded, decoded, recursion_error, decode_error, validate_structure, loads_strict_json, Outcome,
  finish_load, after_hooks, load, max_json_nodes, max_json_depth,
}
use platform_gitops.StrictJson.Measure.{nodes, nesting}
use platform_gitops.StrictJson.Limits.{validate_structure-Verdict}

-- No member of the list is in the other or repeated.
abbrev AllNew : List String → List String → Type 0
AllNew seen [] = Unit {0}
AllNew seen (k ∷ ks) = (contains k seen ≡ false) × AllNew (k ∷ seen) ks

-- Every object below has distinct keys, every float is finite, and there is no constant.
unfoldable mutual
  pub IsStrict : Value → Type 0
  IsStrict (scalar s) = Unit {0}
  IsStrict (float finite) = finite ≡ true
  IsStrict (constant s) = ⊥
  IsStrict (array xs) = AllStrict xs
  IsStrict (object fs) = FieldsStrict fs × IsDistinct (keys fs)

  pub AllStrict : Items → Type 0
  AllStrict no_items = Unit {0}
  AllStrict (item v vs) = IsStrict v × AllStrict vs

  pub FieldsStrict : Fields → Type 0
  FieldsStrict no_members = Unit {0}
  FieldsStrict (member k v fs) = IsStrict v × FieldsStrict fs

reject_duplicates-AllNew :
    (seen : List String) (fs : Fields) → (reject_duplicates seen fs ≡ ok tt) ↔ AllNew seen (keys fs)
unfolding reject_duplicates keys
reject_duplicates-AllNew seen no_members = (λ h. tt, λ h. refl)
reject_duplicates-AllNew seen (member k v fs) = elim (Bool-cases (contains k seen)) [
  | inl old ↦ (λ h. absurd (ground (arith, old, h)), λ h. absurd (ground (arith, old, h)))
  | inr new ↦ (
    (λ h. (new, (reject_duplicates-AllNew (k ∷ seen) fs).0 (ground (arith, new, h)))),
    (λ h. ground (arith, new, (reject_duplicates-AllNew (k ∷ seen) fs).1 h.1)),
  )
]

-- A key added to those that were seen.
all-not_seen :
    (k : String) (seen ks : List String)
    → all (λ j. not (contains j (k ∷ seen))) ks
      ≡ (not (contains k ks) && all (λ j. not (contains j seen)) ks)
all-not_seen k seen [] = refl
all-not_seen k seen (j ∷ ks) = ground (arith, all-not_seen k seen ks, eq_iff k j, eq_iff j k)

AllNew-IsDistinct :
    (seen ks : List String)
    → AllNew seen ks ↔ (IsDistinct ks × (all (λ k. not (contains k seen)) ks ≡ true))
AllNew-IsDistinct seen [] = (λ h. (tt, refl), λ h. tt)
AllNew-IsDistinct seen (k ∷ ks) =
    let (new, old) = AllNew-IsDistinct (k ∷ seen) ks in
    (
      (λ h.
          let (distinct, apart) = new h.1 in
          (
            (ground (arith, all-not_seen k seen ks), distinct),
            ground (arith, h.0, all-not_seen k seen ks),
          )),
      (λ h. (ground (arith, h), old (h.0.1, ground (arith, h.0.0, h.1, all-not_seen k seen ks)))),
    )

nothing_seen : (ks : List String) → all (λ k. not (contains k [])) ks ≡ true
nothing_seen [] = refl
nothing_seen (k ∷ ks) = nothing_seen ks

reject_duplicates-IsDistinct :
    (fs : Fields) → (reject_duplicates [] fs ≡ ok tt) ↔ IsDistinct (keys fs)
reject_duplicates-IsDistinct fs = (
  (λ h. ((AllNew-IsDistinct [] (keys fs)).0 ((reject_duplicates-AllNew [] fs).0 h)).0),
  (λ h.
      (reject_duplicates-AllNew [] fs).1
        ((AllNew-IsDistinct [] (keys fs)).1 (h, nothing_seen (keys fs)))),
)

-- Two checks in turn, and what each shows.
both-ok :
    {P Q : Type 0} (m n : Result JsonError (Unit {0}))
    → (m ≡ ok tt) ↔ P
    → (n ≡ ok tt) ↔ Q
    → ((m >> n) ≡ ok tt) ↔ (P × Q)
both-ok (ok u) n p q = ((λ h. (p.0 refl, q.0 h)), λ h. q.1 h.1)
both-ok (err e) n p q = ((λ h. absurd (ground (arith, h))), λ h. absurd (ground (arith, p.1 h.0)))

mutual
  unfolding apply_hooks IsStrict

  apply_hooks-IsStrict : (v : Value) → (apply_hooks v ≡ ok tt) ↔ IsStrict v
  apply_hooks-IsStrict (scalar s) = (λ h. tt, λ h. refl)
  apply_hooks-IsStrict (float true) = (λ h. refl, λ h. refl)
  apply_hooks-IsStrict (float false) =
      (λ h. absurd (ground (arith, h)), λ h. absurd (ground (arith, h)))
  apply_hooks-IsStrict (constant s) = (λ h. absurd (ground (arith, h)), λ h. absurd h)
  apply_hooks-IsStrict (array xs) = hook_items-AllStrict xs
  apply_hooks-IsStrict (object fs) =
      both-ok (hook_fields fs) (reject_duplicates [] fs) (hook_fields-FieldsStrict fs)
        (reject_duplicates-IsDistinct fs)

  hook_items-AllStrict : (xs : Items) → (hook_items xs ≡ ok tt) ↔ AllStrict xs
  hook_items-AllStrict no_items = (λ h. tt, λ h. refl)
  hook_items-AllStrict (item v vs) =
      both-ok (apply_hooks v) (hook_items vs) (apply_hooks-IsStrict v) (hook_items-AllStrict vs)

  hook_fields-FieldsStrict : (fs : Fields) → (hook_fields fs ≡ ok tt) ↔ FieldsStrict fs
  hook_fields-FieldsStrict no_members = (λ h. tt, λ h. refl)
  hook_fields-FieldsStrict (member k v fs) =
      both-ok (apply_hooks v) (hook_fields fs) (apply_hooks-IsStrict v)
        (hook_fields-FieldsStrict fs)

-- What is loaded.
abbrev pub IsLoadable : Value → Type 0
IsLoadable v = IsStrict v × (nodes v ≤ max_json_nodes) × (nesting v ≤ max_json_depth)

finish_load_iff :
    (v w : Value) (r : Outcome) → (finish_load v r ≡ some (ok w)) ↔ ((v ≡ w) × (r ≡ some (ok tt)))
unfolding finish_load
finish_load_iff v w none = ((λ h. absurd (ground (arith, h))), λ h. absurd (ground (arith, h.1)))
finish_load_iff v w (some (err e)) =
    ((λ h. absurd (ground (arith, h))), λ h. absurd (ground (arith, h.1)))
finish_load_iff v w (some (ok u)) = ((λ h. (ground (arith, h), refl)), λ h. ground (arith, h.0))

after_hooks_iff :
    (v w : Value) (r : Result JsonError (Unit {0}))
    → (after_hooks v r ≡ some (ok w))
      ↔ ((v ≡ w) × (r ≡ ok tt) × (validate_structure v ≡ some (ok tt)))
unfolding after_hooks
after_hooks_iff v w (err e) = ((λ h. absurd (ground (arith, h))), λ h. absurd (ground (arith, h.1)))
after_hooks_iff v w (ok u) =
    let both = finish_load_iff v w (validate_structure v) in
    ((λ h. let (same, good) = both.0 h in (same, refl, good)), λ h. both.1 (h.0, h.2))

-- Within the limits, the structure is accepted, and only there.
structure_iff :
    (v : Value)
    → (validate_structure v ≡ some (ok tt))
      ↔ ((nodes v ≤ max_json_nodes) × (nesting v ≤ max_json_depth))
structure_iff v = elim (validate_structure-Verdict v) [
  | inl (good, few, flat) ↦ ((λ h. (few, flat)), λ h. good)
  | inr (inl (bad, many)) ↦
      ((λ h. absurd (ground (arith, h, bad))), λ h. absurd (omega (arith, h.0, many)))
  | inr (inr (bad, deep)) ↦
      ((λ h. absurd (ground (arith, h, bad))), λ h. absurd (omega (arith, h.1, deep)))
]

load-IsLoadable :
    (d : Decoded) (v : Value) → (load d ≡ some (ok v)) ↔ ((d ≡ decoded v) × IsLoadable v)
unfolding load
load-IsLoadable recursion_error v =
    ((λ h. absurd (ground (arith, h))), λ h. absurd (ground (arith, h.0)))
load-IsLoadable decode_error v =
    ((λ h. absurd (ground (arith, h))), λ h. absurd (ground (arith, h.0)))
load-IsLoadable (decoded w) v =
    let parts = after_hooks_iff w v (apply_hooks w) in
    (
      (λ h.
          let (same, hooks, structure) = parts.0 h in
          let (few, flat) = (structure_iff w).0 structure in
          let strict = (apply_hooks-IsStrict w).0 hooks in
          (ap decoded same, subst IsLoadable same (strict, few, flat))),
      (λ h.
          let same : w ≡ v = ground (arith, h.0) in
          let (strict, few, flat) = subst IsLoadable (sym same) h.1 in
          parts.1 (same, (apply_hooks-IsStrict w).1 strict, (structure_iff w).1 (few, flat))),
    )

-- A text is loaded exactly when it decodes to a document in which every object has distinct keys,
-- every float is finite and no constant stands, of at most 1,000,000 nodes nested at most 128 deep;
-- what is loaded is that document.
pub loads_strict_json-IsLoadable :
    (decode : String → Decoded) (text : String) (v : Value)
    → (loads_strict_json decode text ≡ some (ok v)) ↔ ((decode text ≡ decoded v) × IsLoadable v)
unfolding loads_strict_json
loads_strict_json-IsLoadable decode text v = load-IsLoadable (decode text) v
