-- ===== src/Pressure/Restore.antt =====
-- annotation_state, restore_legacy_state and run.
use platform_gitops.Prelude.{
  ℕ, nat_eq, String, ◌==◌, Bool, true, false, not, ◌&&◌, Option, none, some, List, [], ◌∷◌, all,
  filter, contains, if◌then◌else◌,
}
use platform_gitops.Prelude.Result.{Result, ok, err}

-- A member of the annotation's document: `none` stands for a value that is not a boolean.
pub record DiskState : Type 0 where
  pub disk_name : String
  pub only_both : Bool
  pub allow_scheduling : Option Bool
  pub eviction_requested : Option Bool

pub record ReplicaState : Type 0 where
  pub replica_name : String
  pub original : Option Bool

-- The document that the annotation holds; `none` where a member is not of its type. A version that
-- equals 1 is 1.
pub record LegacyState : Type 0 where
  pub version : Option ℕ
  pub node : String
  pub disks : Option (List DiskState)
  pub replicas : Option (List ReplicaState)

-- What the annotation is: absent, not a document, no object, or an object.
pub data Annotation : Type 0 where
  absent malformed not_an_object : Annotation
  object : LegacyState → Annotation

pub record PressureNode : Type 0 where
  pub annotation : Annotation
  pub disk_names : List String

pub data PressureError : Type 0 where
  invalid_state unsupported_state mismatched_state invalid_replica_state invalid_disk_state
        kubectl_failed :
      PressureError

abbrev pub is_boolean : Option Bool → Bool
is_boolean none = false
is_boolean (some b) = true

unfoldable pub is_valid_disk : DiskState → Bool
is_valid_disk d =
    not (d.disk_name == "")
    && (d.only_both && (is_boolean d.allow_scheduling && is_boolean d.eviction_requested))

unfoldable pub is_valid_replica : ReplicaState → Bool
is_valid_replica r =
    not (r.replica_name == "") && (elim r.original [ none ↦ false | some b ↦ not b ])

unfoldable pub is_version_one : Option ℕ → Bool
is_version_one none = false
is_version_one (some n) = nat_eq n 1

-- The state with its members, once they have been checked.
unfoldable pub checked_members :
    List DiskState
    → List ReplicaState
    → Result PressureError (Option (List DiskState × List ReplicaState))
unfolding is_valid_disk is_valid_replica
checked_members disks replicas =
    if not (all is_valid_disk disks)
    then err invalid_disk_state
    else (if not (all is_valid_replica replicas)
        then err invalid_replica_state
        else ok (some (disks, replicas)))

unfoldable pub with_replicas :
    List DiskState
    → Option (List ReplicaState)
    → Result PressureError (Option (List DiskState × List ReplicaState))
unfolding checked_members
with_replicas disks none = err invalid_replica_state
with_replicas disks (some replicas) = checked_members disks replicas

unfoldable pub with_disks :
    LegacyState
    → Option (List DiskState)
    → Result PressureError (Option (List DiskState × List ReplicaState))
unfolding with_replicas
with_disks state none = err mismatched_state
with_disks state (some disks) = with_replicas disks state.replicas

unfoldable pub annotation_state :
    Annotation → String → Result PressureError (Option (List DiskState × List ReplicaState))
unfolding is_version_one with_disks
annotation_state absent node_name = ok none
annotation_state malformed node_name = err invalid_state
annotation_state not_an_object node_name = err unsupported_state
annotation_state (object state) node_name =
    if not (is_version_one state.version)
    then err unsupported_state
    else (if not (state.node == node_name)
        then err mismatched_state
        else with_disks state state.disks)

-- The changes that are made, newest first.
pub data Change : Type 0 where
  patch_replica : String → Option Bool → Change
  patch_node : String → List DiskState → Change

-- What kubectl answers to a change: done, not found, or another failure.
pub data Answer : Type 0 where
  done not_found failed : Answer

abbrev pub Kubectl : Type 0
Kubectl = Change → List Change → Answer

-- A replica that is not found is passed over.
unfoldable pub restore_replicas :
    Kubectl → List ReplicaState → List Change → List Change × Result PressureError (Unit {0})
restore_replicas kube [] made = (made, ok tt)
restore_replicas kube (r ∷ rest) made =
    let change = patch_replica r.replica_name r.original in
    let after = restore_replicas kube rest (change ∷ made) in
    elim (kube change made) [
      | done ↦ after
      | not_found ↦ after
      | failed ↦ (change ∷ made, err kubectl_failed)
    ]

-- The patch removes the annotation, and sets the disks that the node still has.
unfoldable pub restore_node :
    Kubectl
    → String
    → List DiskState
    → List String
    → List Change
    → List Change × Result PressureError (Unit {0})
restore_node kube node_name disks current made =
    let change = patch_node node_name (filter (λ d. contains d.disk_name current) disks) in
    elim (kube change made) [
      | done ↦ (change ∷ made, ok tt)
      | not_found ↦ (change ∷ made, err kubectl_failed)
      | failed ↦ (change ∷ made, err kubectl_failed)
    ]

unfoldable pub then_node :
    Kubectl
    → String
    → List DiskState
    → List String
    → List Change × Result PressureError (Unit {0})
    → List Change × Result PressureError (Unit {0})
unfolding restore_node
then_node kube node_name disks current (made, ok u) = restore_node kube node_name disks current made
then_node kube node_name disks current (made, err e) = (made, err e)

unfoldable pub restore_legacy_state :
    Kubectl
    → String
    → List DiskState × List ReplicaState
    → List String
    → List Change × Result PressureError (Unit {0})
unfolding restore_replicas then_node
restore_legacy_state kube node_name state current =
    then_node kube node_name state.0 current (restore_replicas kube state.1 [])

-- `run`, from what was read: the exit code does not depend on the pressure.
unfoldable pub run_on :
    Kubectl
    → String
    → PressureNode
    → Result PressureError (Option (List DiskState × List ReplicaState))
    → List Change × Result PressureError (Unit {0})
unfolding restore_legacy_state
run_on kube node_name node (err e) = ([], err e)
run_on kube node_name node (ok none) = ([], ok tt)
run_on kube node_name node (ok (some state)) =
    restore_legacy_state kube node_name state node.disk_names

-- The node is absent, or read.
unfoldable pub run :
    Kubectl → String → Option PressureNode → List Change × Result PressureError (Unit {0})
unfolding run_on annotation_state
run kube node_name none = ([], ok tt)
run kube node_name (some node) =
    run_on kube node_name node (annotation_state node.annotation node_name)
