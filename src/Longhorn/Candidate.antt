-- ===== src/Longhorn/Candidate.antt =====
-- The records and the tests behind evaluate_directory, and the result of a check that may reject.
use platform_gitops.Prelude.{
  ℕ, String, ◌==◌, Bool, true, false, not, ◌&&◌, ◌||◌, none, some, List, [], ◌∷◌, ltb, nat_eq,
  if◌then◌else◌, any,
}
use native.Mathlib.Nat.{ℕ_set}
use platform_gitops.Prelude.{String_set}
use platform_gitops.Longhorn.Kube.{
  Metadata, LonghornNode, Pod, Volume, Replica, Engine, LonghornAttachment, NativeAttachment,
  PersistentVolume, PersistentVolumeClaim, truthy, integer, get_text,
}
use platform_gitops.Longhorn.Managers.{pod_has_running_containers}

-- The directory that holds an entry, and the entry's name.
pub record FilePath : Type 0 where
  pub parent : String
  pub name : String

pub record ReplicaDirectory : Type 0 where
  pub volume_name : String
  pub directory_name : String
  pub path : FilePath
  pub disk_name : String
  pub disk_id : String
  pub allocated_bytes : ℕ
  pub newest_mtime_ns : ℕ
  pub device : ℕ
  pub inode : ℕ
  pub tombstone : Bool

pub record ReclaimCandidate : Type 0 where
  pub directory : ReplicaDirectory
  pub pvc_namespace : String
  pub pvc_name : String
  pub pv_name : String

-- What one collection of the cluster's state hands to the evaluation of each directory.
pub record Cluster : Type 0 where
  pub node_name : String
  pub volumes : List Volume
  pub replicas : List Replica
  pub engines : List Engine
  pub longhorn_attachments : List LonghornAttachment
  pub native_attachments : List NativeAttachment
  pub pvs : List PersistentVolume
  pub pvcs : List PersistentVolumeClaim
  pub pods : List Pod
  pub nodes : List LonghornNode
  pub directories : List ReplicaDirectory
  pub now_ns : ℕ

pub data Reason : Type 0 where
  allocated_data_below_reclaim_floor replica_directory_too_new replica_directory_still_registered
        volume_identity_not_unique volume_controller_owner_not_ready volume_not_safely_detached
        current_replica_count_does_not_match_desired current_replica_health_history_not_safe
        current_replicas_not_node_distinct registered_local_replica_not_unique
        registered_local_replica_directory_absent volume_engine_not_fully_stopped
        longhorn_attachment_ticket_present kubernetes_volume_identity_incomplete
        persistent_volume_identity_not_unique persistent_volume_not_safely_bound
        persistent_volume_claim_identity_not_unique persistent_volume_claim_not_safely_bound
        persistent_volume_claim_has_active_pod_reference kubernetes_volume_attachment_present :
      Reason

-- A value, or the reason for which the directory is left alone.
pub data Check (A : Type 0) : Type 0 where
  pass : A → Check A
  reject : Reason → Check A

infixl 5 ◌>>=◌ ◌>>◌
abbrev pub ◌>>=◌ : {A B : Type 0} → Check A → (A → Check B) → Check B
pass a >>= f = f a
reject r >>= f = reject r

abbrev pub ◌>>◌ : {B : Type 0} → Check (Unit {0}) → Check B → Check B
m >> k = m >>= λ _. k

-- `if bad: return None, reason`
abbrev pub reject_if : Bool → Reason → Check (Unit {0})
reject_if true r = reject r
reject_if false r = pass tt

-- `if len(items) != 1: return None, reason`, and the item.
abbrev pub the_only : {A : Type 0} → List A → Reason → Check A
the_only [] r = reject r
the_only (a ∷ []) r = pass a
the_only (a ∷ b ∷ rest) r = reject r

unfoldable pub pod_uses_claim : String → String → Pod → Bool
pod_uses_claim namespace claim_name pod =
    if not (pod.metadata.namespace == namespace)
    then false
    else any (λ c. elim c [ none ↦ false | some name ↦ name == claim_name ]) pod.claims

unfoldable pub pod_claim_reference_is_quiescent : String → String → Pod → Bool
unfolding pod_uses_claim
pod_claim_reference_is_quiescent namespace claim_name pod =
    if not (pod_uses_claim namespace claim_name pod)
    then true
    else not (truthy pod.metadata.deletion_timestamp)
      && (pod.phase == "Pending"
          && (not (truthy pod.node_name)
              && (not (truthy pod.nominated_node_name) && not (pod_has_running_containers pod))))

unfoldable pub volume_is_attached : Volume → Bool
unfolding get_text integer
volume_is_attached v =
    let data_engine = get_text v.data_engine "v1" in
    not (data_engine == "" || data_engine == "v1")
    || (not (v.state == "detached")
        || (truthy v.current_node_id
            || (truthy v.spec_node_id
                || (truthy v.migration_node_id
                    || (truthy v.current_migration_node_id
                        || (truthy v.from_backup
                            || (v.restore_required
                                || (nat_eq (integer v.actual_size 0) 0
                                    || ltb (integer v.number_of_replicas 0) 2))))))))

unfoldable pub engine_is_active : Engine → Bool
engine_is_active e =
    truthy e.metadata.deletion_timestamp
    || (truthy e.node_id
        || (not (e.desire_state == "stopped")
            || (not (e.current_state == "stopped") || truthy e.instance_manager_name)))

-- A live object of a name.
abbrev pub is_live : String → Metadata → Bool
is_live name m = m.name == name && not (truthy m.deletion_timestamp)

unfoldable pub pv_is_unbound : PersistentVolume → String → String → String → Bool
pv_is_unbound pv volume_name namespace pvc_name =
    not (pv.phase == "Bound")
    || (not (pv.csi_driver == "driver.longhorn.io")
        || (not (pv.csi_volume_handle == volume_name)
            || (not (pv.claim_namespace == namespace) || not (pv.claim_name == pvc_name))))

unfoldable pub pvc_is_unbound : PersistentVolumeClaim → PersistentVolume → String → Bool
pvc_is_unbound pvc pv pv_name =
    not (pvc.phase == "Bound")
    || (not (pvc.volume_name == pv_name)
        || (not (truthy pvc.metadata.uid) || not (pv.claim_uid == pvc.metadata.uid)))

pub ReclaimCandidate-set : IsSet ReclaimCandidate
ReclaimCandidate-set = hlevel (String_set, ℕ_set)
