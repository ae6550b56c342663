-- ===== src/Longhorn/Select.antt =====
-- select_candidate: the one directory that may be reclaimed on a node under disk pressure.
use platform_gitops.Prelude.{
  ℕ, max, String, ◌==◌, not, ◌||◌, Option, List, [], ◌∷◌, ltb, nat_eq, if◌then◌else◌, length,
  filter, contains,
}
use platform_gitops.Longhorn.Kube.{KubeNode, LonghornNode, Pod, truthy, integer, condition_status}
use platform_gitops.Longhorn.Managers.{ManagerReason, ready_manager_nodes}
use platform_gitops.Longhorn.Disks.{IsoReader}
use platform_gitops.Longhorn.Candidate.{
  ReplicaDirectory, ReclaimCandidate, Cluster, Reason, Check, pass, reject, is_live,
}
use platform_gitops.Longhorn.Evaluate.{evaluate_directory}

abbrev pub legacy_pressure_annotation : String
legacy_pressure_annotation = "platform.gitops.io/root-pressure-eviction"

pub data SelectReason : Type 0 where
  kubernetes_node_not_ready kubernetes_disk_pressure_not_active kubernetes_memory_pressure_not_clear
        kubernetes_pid_pressure_not_clear kubernetes_network_unavailable
        longhorn_node_identity_not_unique legacy_pressure_eviction_state_present
        longhorn_orphan_policy_not_safe multiple_proven_unregistered_replica_directories :
      SelectReason
  managers_not_safe : ManagerReason → SelectReason
  no_proven_unregistered_replica_directory : List Reason → SelectReason

pub data Selection : Type 0 where
  selected : ReclaimCandidate → Selection
  none_selected : SelectReason → Selection

-- The settings of the cluster, the deletion modes split at `;`, stripped, the empty ones dropped.
pub record Settings : Type 0 where
  pub deletion_modes : List String
  pub grace_period : Option ℕ

-- `metadata.annotations.get(key)`, as a truth value.
unfoldable pub annotation : String → List (String × String) → String
annotation key [] = ""
annotation key ((k, v) ∷ rest) = if k == key then v else annotation key rest

-- The candidates and the reasons of the other directories, in the order of the directories.
unfoldable pub evaluate_all :
    (ReplicaDirectory → Check ReclaimCandidate)
    → List ReplicaDirectory
    → List ReclaimCandidate × List Reason
evaluate_all evaluate [] = ([], [])
evaluate_all evaluate (d ∷ rest) =
    let (eligible, reasons) = evaluate_all evaluate rest in
    elim (evaluate d) [
      | pass candidate ↦ (candidate ∷ eligible, reasons)
      | reject reason ↦ (eligible, reason ∷ reasons)
    ]

unfoldable pub choose : List ReclaimCandidate → List Reason → Selection
choose [] reasons = none_selected (no_proven_unregistered_replica_directory reasons)
choose (candidate ∷ []) reasons = selected candidate
choose (candidate ∷ other ∷ rest) reasons =
    none_selected multiple_proven_unregistered_replica_directories

-- The part of the function behind the tests of the node: the managers, the policy, the directories.
unfoldable pub select_on_node :
    IsoReader → Cluster → LonghornNode → List Pod → Settings → ℕ → ℕ → Selection
unfolding choose integer
select_on_node from_iso c local manager_pods settings minimum_age_seconds minimum_reclaim_bytes =
    let managers = ready_manager_nodes c.node_name local manager_pods c.nodes in
    let grace = integer settings.grace_period 0 in
    let outcome =
      evaluate_all
        (evaluate_directory from_iso c managers.ready managers.inactive_pressure_owners
          (max minimum_age_seconds grace) minimum_reclaim_bytes)
        c.directories in
    if nat_eq (length managers.ready) 0
    then none_selected (managers_not_safe managers.reason)
    else if not (contains "replica-data" settings.deletion_modes) || ltb grace 300
    then none_selected longhorn_orphan_policy_not_safe
    else choose outcome.0 outcome.1

unfoldable pub select_local :
    IsoReader → Cluster → List LonghornNode → List Pod → Settings → ℕ → ℕ → Selection
unfolding annotation
select_local from_iso c [] manager_pods settings age bytes =
    none_selected longhorn_node_identity_not_unique
select_local from_iso c (local ∷ []) manager_pods settings age bytes =
    if truthy (annotation legacy_pressure_annotation local.metadata.annotations)
    then none_selected legacy_pressure_eviction_state_present
    else select_on_node from_iso c local manager_pods settings age bytes
select_local from_iso c (local ∷ other ∷ rest) manager_pods settings age bytes =
    none_selected longhorn_node_identity_not_unique

unfoldable pub select_candidate :
    IsoReader → Cluster → KubeNode → List Pod → Settings → ℕ → ℕ → Selection
select_candidate from_iso c kube_node manager_pods settings age bytes =
    let status = condition_status kube_node.conditions in
    if not (status "Ready" == "True")
    then none_selected kubernetes_node_not_ready
    else if not (status "DiskPressure" == "True")
    then none_selected kubernetes_disk_pressure_not_active
    else if not (status "MemoryPressure" == "False")
    then none_selected kubernetes_memory_pressure_not_clear
    else if not (status "PIDPressure" == "False")
    then none_selected kubernetes_pid_pressure_not_clear
    else if status "NetworkUnavailable" == "True"
    then none_selected kubernetes_network_unavailable
    else select_local from_iso c (filter (λ n. is_live c.node_name n.metadata) c.nodes) manager_pods
        settings age bytes
