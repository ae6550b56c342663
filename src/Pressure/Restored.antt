-- ===== src/Pressure/Restored.antt =====
-- Which changes a run makes, and in which order.
use platform_gitops.Prelude.{
  ℕ, suc, String, ◌≡◌, ◌⊎◌, refl, ap, subst, Bool, true, false, not, Option, none, some, List, [],
  ◌∷◌, Each, arith, all, filter, contains, inl, inr,
}
use platform_gitops.Prelude.Sequences.{take}
use platform_gitops.Prelude.Result.{Result, ok, err}
use platform_gitops.Pressure.Restore.{
  DiskState, ReplicaState, LegacyState, Annotation, absent, malformed, not_an_object, object,
  PressureNode, PressureError, is_valid_replica, checked_members, with_replicas, with_disks,
  annotation_state, Change, patch_replica, patch_node, Answer, done, not_found, failed,
  kubectl_failed, Kubectl, restore_replicas, restore_node, then_node, restore_legacy_state, run_on,
  run,
}

-- The changes of replicas, newest first.
abbrev pub patched : List ReplicaState → List Change → List Change
patched [] made = made
patched (r ∷ rest) made = patched rest (patch_replica r.replica_name r.original ∷ made)

-- A run that has come to some replica, or to the node.
abbrev pub IsPartOf :
    String → List DiskState → List ReplicaState → List String → List Change → Type 0
IsPartOf node_name disks replicas current made =
    ((k : ℕ) × (made ≡ patched (take k replicas) []))
    ⊎ (made
        ≡ patch_node node_name (filter (λ d. contains d.disk_name current) disks)
          ∷ patched replicas [])

abbrev pub Outcome : Type 0
Outcome = List Change × Result PressureError (Unit {0})

-- What restore_replicas has made: for a first part of the replicas, or for all where it succeeds.
abbrev IsThrough : List ReplicaState → List Change → Outcome → Type 0
IsThrough rs made (after, ok u) = after ≡ patched rs made
IsThrough rs made (after, err e) = (k : ℕ) × (after ≡ patched (take k rs) made)

module _ (kube : Kubectl) where
  next-IsThrough :
      (r : ReplicaState) (rs : List ReplicaState) (made : List Change) (x : Outcome)
      → IsThrough rs (patch_replica r.replica_name r.original ∷ made) x
      → IsThrough (r ∷ rs) made x
  unfolding take
  next-IsThrough r rs made (after, ok u) h = h
  next-IsThrough r rs made (after, err e) (k, h) = (suc k, h)

  answered-IsThrough :
      (a : Answer) (r : ReplicaState) (rs : List ReplicaState) (made : List Change) (x : Outcome)
      → IsThrough rs (patch_replica r.replica_name r.original ∷ made) x
      → IsThrough (r ∷ rs) made (elim a [
        | done ↦ x
        | not_found ↦ x
        | failed ↦ (patch_replica r.replica_name r.original ∷ made, err kubectl_failed)
      ])
  unfolding take
  answered-IsThrough done r rs made x h = next-IsThrough r rs made x h
  answered-IsThrough not_found r rs made x h = next-IsThrough r rs made x h
  answered-IsThrough failed r rs made x h = (1, refl)

  restore_replicas-IsThrough :
      (rs : List ReplicaState) (made : List Change)
      → IsThrough rs made (restore_replicas kube rs made)
  unfolding restore_replicas
  restore_replicas-IsThrough [] made = refl
  restore_replicas-IsThrough (r ∷ rs) made =
      answered-IsThrough (kube (patch_replica r.replica_name r.original) made) r rs made _
        (restore_replicas-IsThrough rs (patch_replica r.replica_name r.original ∷ made))

  module _ (node_name : String) (disks : List DiskState) (replicas : List ReplicaState)
      (current : List String) where
    abbrev the_patch : Change
    the_patch = patch_node node_name (filter (λ d. contains d.disk_name current) disks)

    -- A success is complete, and every outcome is a part of the restoration.
    abbrev pub IsRestored : Outcome → Type 0
    IsRestored x =
        IsPartOf node_name disks replicas current x.0
        × (x.1 ≡ ok tt → x.0 ≡ the_patch ∷ patched replicas [])

    node-IsRestored :
        (made : List Change)
        → made ≡ patched replicas []
        → IsRestored (restore_node kube node_name disks current made)
    unfolding restore_node
    node-IsRestored made h = after (kube the_patch made)
      where
        whole : the_patch ∷ made ≡ the_patch ∷ patched replicas []
        whole = ap (λ m. the_patch ∷ m) h

        after :
            (a : Answer)
            → IsRestored (elim a [
              | done ↦ (the_patch ∷ made, ok tt)
              | not_found ↦ (the_patch ∷ made, err kubectl_failed)
              | failed ↦ (the_patch ∷ made, err kubectl_failed)
            ])
        after done = (inr whole, λ e. whole)
        after not_found = (inr whole, λ e. whole)
        after failed = (inr whole, λ e. whole)

    then_node-IsRestored :
        (x : Outcome)
        → IsThrough replicas [] x
        → IsRestored (then_node kube node_name disks current x)
    unfolding then_node
    then_node-IsRestored (made, ok u) h = node-IsRestored made h
    then_node-IsRestored (made, err e) (k, h) = (inl (k, h), λ f. absurd (ground (arith, f)))

    restore-IsRestored : IsRestored (restore_legacy_state kube node_name (disks, replicas) current)
    unfolding restore_legacy_state
    restore-IsRestored =
        then_node-IsRestored (restore_replicas kube replicas [])
          (restore_replicas-IsThrough replicas [])

abbrev pub ArePrevented : List ReplicaState → Type 0
ArePrevented replicas = Each (λ r. r.original ≡ some false) replicas

valid-ArePrevented : (rs : List ReplicaState) → all is_valid_replica rs ≡ true → ArePrevented rs
unfolding is_valid_replica
valid-ArePrevented [] h = tt
valid-ArePrevented (r ∷ rs) h =
    (prevented r.original (ground (arith, h)), valid-ArePrevented rs (ground (arith, h)))
  where
    prevented :
        (o : Option Bool) → (elim o [ none ↦ false | some b ↦ not b ]) ≡ true → o ≡ some false
    prevented none h = absurd (ground (arith, h))
    prevented (some b) h = ap some (ground (arith, h))

checked-ArePrevented :
    (ds disks : List DiskState) (rs replicas : List ReplicaState)
    → checked_members ds rs ≡ ok (some (disks, replicas))
    → ArePrevented replicas
unfolding checked_members
checked-ArePrevented ds disks rs replicas h =
    let valid : all is_valid_replica rs ≡ true = ground (arith, h) in
    let same : rs ≡ replicas = ground (arith, h) in
    subst ArePrevented same (valid-ArePrevented rs valid)

with_replicas-ArePrevented :
    (ds disks : List DiskState) (o : Option (List ReplicaState)) (replicas : List ReplicaState)
    → with_replicas ds o ≡ ok (some (disks, replicas))
    → ArePrevented replicas
unfolding with_replicas
with_replicas-ArePrevented ds disks none replicas h = absurd (ground (arith, h))
with_replicas-ArePrevented ds disks (some rs) replicas h =
    checked-ArePrevented ds disks rs replicas h

with_disks-ArePrevented :
    (state : LegacyState) (o : Option (List DiskState)) (disks : List DiskState)
    (replicas : List ReplicaState)
    → with_disks state o ≡ ok (some (disks, replicas))
    → ArePrevented replicas
unfolding with_disks
with_disks-ArePrevented state none disks replicas h = absurd (ground (arith, h))
with_disks-ArePrevented state (some ds) disks replicas h =
    with_replicas-ArePrevented ds disks state.replicas replicas h

state-ArePrevented :
    (a : Annotation) (node_name : String) (disks : List DiskState) (replicas : List ReplicaState)
    → annotation_state a node_name ≡ ok (some (disks, replicas))
    → ArePrevented replicas
unfolding annotation_state
state-ArePrevented absent n disks replicas h = absurd (ground (arith, h))
state-ArePrevented malformed n disks replicas h = absurd (ground (arith, h))
state-ArePrevented not_an_object n disks replicas h = absurd (ground (arith, h))
state-ArePrevented (object state) n disks replicas h =
    with_disks-ArePrevented state state.disks disks replicas (ground (arith, h))

-- Where the node's annotation holds a state, no replica is asked to be evicted; the changes of a run
-- are those of a first part of the state's replicas in order, or those of all of them and then, last,
-- the one that removes the annotation and restores the disks that the node still has; a run that
-- succeeds has made all of them.
pub run-IsRestored :
    (kube : Kubectl) (node_name : String) (node : PressureNode) (disks : List DiskState)
    (replicas : List ReplicaState)
    → annotation_state node.annotation node_name ≡ ok (some (disks, replicas))
    → ArePrevented replicas
      × IsRestored kube node_name disks replicas node.disk_names (run kube node_name (some node))
unfolding run run_on
run-IsRestored kube node_name node disks replicas h = (
  state-ArePrevented node.annotation node_name disks replicas h,
  rw h (restore-IsRestored kube node_name disks replicas node.disk_names),
)
