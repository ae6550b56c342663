-- ===== src/Migration/Mirrored.antt =====
-- compare_refs and push_mirror, from what git lists to their results.
use platform_gitops.Prelude.{
  String, ◌≡◌, ◌↔◌, ◌⊎◌, refl, sym, ap, ◌∙◌, Bool, true, false, not, ◌&&◌, Option, none, some, List,
  [], ◌∷◌, arith, Option-cases, inl, inr, if◌then◌else◌,
}
use platform_gitops.Prelude.Filters.{is_empty}
use platform_gitops.Prelude.Result.{ok, bind-ok, raise_if}
use platform_gitops.Migration.Refs.{
  Refs, get, same_refs, compared, RefComparison, compare_refs, remote_refs, ls_remote_refs, Push,
  unchanged, push_and_prune, push_known, push_mirror, mirror_migratable_refs, refuse_to_prune,
}
use platform_gitops.Migration.SameRefs.{AreSame, same_refs-AreSame, compared-AreSame}

-- Where git lists both repositories, compare_refs returns, and verifies exactly when each reference
-- names the same object in both or is in neither, and the source's default branch is unknown or is the
-- destination's.
pub compare_refs-AreSame :
    (source destination : List (List String)) (b₁ b₂ : Option String)
    → (c : RefComparison) × (compare_refs
          (record { refs = some source; default_branch = some b₁ })
          (record { refs = some destination; default_branch = some b₂ })
        ≡ ok c)
      × ((c.verified ≡ true) ↔ (
          AreSame (remote_refs source []) (remote_refs destination []) × ((b₁ ≡ none) ⊎ (b₁ ≡ b₂))))
unfolding compare_refs ls_remote_refs
compare_refs-AreSame source destination b₁ b₂ = (
  compared (remote_refs source []) (remote_refs destination []) b₁ b₂,
  refl,
  compared-AreSame (remote_refs source []) (remote_refs destination []) b₁ b₂,
)

-- What stands at the destination after the push.
abbrev pub after_push : (Refs → Refs → Refs) → Push → Refs → Refs
after_push git_push unchanged destination = destination
after_push git_push (push_and_prune local) destination = git_push local destination

raise_if-ok : {E : Type 0} (b : Bool) (e : E) → raise_if b e ≡ ok tt → b ≡ false
raise_if-ok true e h = absurd (ground (arith, h))
raise_if-ok false e h = refl

not_empty :
    {A : Type 0} (xs ys : List A) → (is_empty xs && not (is_empty ys)) ≡ false → xs ≡ [] → ys ≡ []
not_empty [] [] h e = refl
not_empty [] (y ∷ ys) h e = absurd (ground (arith, h))
not_empty (x ∷ xs) ys h e = absurd (ground (arith, ap is_empty e))

module _ (git_push : Refs → Refs → Refs)
    (updates : (local destination : Refs) (ref id : String)
      → get ref local ≡ some id
      → get ref (git_push local destination) ≡ some id)
    (prunes : (local destination : Refs) (ref : String)
      → get ref local ≡ none
      → get ref (git_push local destination) ≡ none) where
  pushed : (local destination : Refs) → AreSame (git_push local destination) local
  pushed local destination ref = elim (Option-cases (get ref local)) [
    | inl e ↦ prunes local destination ref e ∙ sym e
    | inr (id, e) ↦ updates local destination ref id e ∙ sym e
  ]

  chosen :
      (local destination : Refs) (p : Push)
      → (b : Bool) → (same_refs local destination ≡ b)
      → (if b then unchanged else push_and_prune local) ≡ p
      → AreSame (after_push git_push p destination) local
  chosen local destination unchanged true e h =
      λ ref. sym ((same_refs-AreSame local destination).0 e ref)
  chosen local destination unchanged false e h = absurd (ground (arith, h))
  chosen local destination (push_and_prune l) true e h = absurd (ground (arith, h))
  chosen local destination (push_and_prune l) false e h =
      let same : local ≡ l = ground (arith, h) in rw (← same) (pushed local destination)

  push_known-AreSame :
      (local destination : Refs) (p : Push)
      → push_known local destination ≡ ok p
      → AreSame (after_push git_push p destination) local × (local ≡ [] → destination ≡ [])
  unfolding push_known
  push_known-AreSame local destination p h =
      let (_, allowed, chosen_push) =
        bind-ok (raise_if (is_empty local && not (is_empty destination)) refuse_to_prune) _ h in
      (
        chosen local destination p (same_refs local destination) refl (ground (arith, chosen_push)),
        not_empty local destination (raise_if-ok _ refuse_to_prune allowed),
      )

  -- Where git's push sets every reference that is pushed and prunes every other one, a push_mirror that does not raise leaves the destination with the references of the mirror, and an
  -- empty mirror is accepted only for an empty destination.
  pub push_mirror-AreSame :
      (mirror remote : List (List String)) (p : Push)
      → push_mirror mirror (some remote) ≡ ok p
      → (local : Refs) × (mirror_migratable_refs mirror ≡ ok local)
        × AreSame (after_push git_push p (remote_refs remote [])) local
        × (local ≡ [] → remote_refs remote [] ≡ [])
  unfolding push_mirror ls_remote_refs
  push_mirror-AreSame mirror remote p h =
      let (local, read, h₁) = bind-ok (mirror_migratable_refs mirror) _ h in
      let (same, nothing) = push_known-AreSame local (remote_refs remote []) p h₁ in
      (local, read, same, nothing)
