-- ===== src/Longhorn/Evaluate.antt =====
-- evaluate_directory: whether one replica directory is proven to be unregistered and not needed.
use platform_gitops.Prelude.{
  ℕ, ◌+◌, ◌*◌, String, ◌==◌, Bool, not, ◌&&◌, ◌||◌, List, map, ltb, nat_eq, length, all, any,
  filter, contains, distinct,
}
use platform_gitops.Longhorn.Kube.{Volume, KubernetesStatus, Replica, truthy, integer}
use platform_gitops.Longhorn.Candidate.{
  ReplicaDirectory, ReclaimCandidate, Cluster, Check, pass, ◌>>=◌, ◌>>◌, reject_if, the_only,
  is_live, pod_claim_reference_is_quiescent, volume_is_attached, engine_is_active, pv_is_unbound,
  pvc_is_unbound, allocated_data_below_reclaim_floor, replica_directory_too_new,
  replica_directory_still_registered, volume_identity_not_unique, volume_controller_owner_not_ready,
  volume_not_safely_detached, current_replica_count_does_not_match_desired,
  current_replica_health_history_not_safe, current_replicas_not_node_distinct,
  registered_local_replica_not_unique, registered_local_replica_directory_absent,
  volume_engine_not_fully_stopped, longhorn_attachment_ticket_present,
  kubernetes_volume_identity_incomplete, persistent_volume_identity_not_unique,
  persistent_volume_not_safely_bound, persistent_volume_claim_identity_not_unique,
  persistent_volume_claim_not_safely_bound, persistent_volume_claim_has_active_pod_reference,
  kubernetes_volume_attachment_present,
}
use platform_gitops.Longhorn.Disks.{IsoReader, registered_disks, replica_is_safe}

-- Size, age and registration of the directory itself.
unfoldable pub check_directory : Cluster → ℕ → ℕ → ReplicaDirectory → Check (Unit {0})
check_directory c minimum_age_seconds minimum_reclaim_bytes d = do
  reject_if (ltb d.allocated_bytes minimum_reclaim_bytes) allocated_data_below_reclaim_floor
  reject_if (ltb c.now_ns (d.newest_mtime_ns + minimum_age_seconds * 1000000000))
      replica_directory_too_new
  reject_if (contains d.directory_name (map (λ r. r.data_directory_name) c.replicas))
      replica_directory_still_registered

-- The volume, live, detached, and owned by a node whose manager may own it.
unfoldable pub check_volume : Cluster → List String → List String → ReplicaDirectory → Check Volume
unfolding volume_is_attached
check_volume c ready inactive d = do
  volume ←
      the_only (filter (λ v. is_live d.volume_name v.metadata) c.volumes) volume_identity_not_unique
  reject_if (not (contains volume.owner_id ready || contains volume.owner_id inactive))
      volume_controller_owner_not_ready
  reject_if (volume_is_attached volume) volume_not_safely_detached
  pass volume

unfoldable pub current_replicas : Cluster → ReplicaDirectory → List Replica
current_replicas c d = filter (λ r. r.volume_name == d.volume_name) c.replicas

-- As many replicas as desired, each safe, on distinct nodes.
unfoldable pub check_replicas : IsoReader → Cluster → ReplicaDirectory → Volume → Check (Unit {0})
unfolding integer current_replicas
check_replicas from_iso c d volume = do
  let current = current_replicas c d
  let nodes = map (λ r. r.node_id) current
  reject_if (not (nat_eq (length current) (integer volume.number_of_replicas 0)))
      current_replica_count_does_not_match_desired
  reject_if (not (all (replica_is_safe from_iso (registered_disks c.nodes)) current))
      current_replica_health_history_not_safe
  reject_if (not (nat_eq (length (distinct nodes)) (length nodes)))
      current_replicas_not_node_distinct

-- `(disk_id, name) in directory_index`
unfoldable pub is_indexed : String → String → List ReplicaDirectory → Bool
is_indexed disk_id name =
    any (λ item. not item.tombstone && (item.disk_id == disk_id && item.directory_name == name))

-- The volume's registered replica on this disk, and its directory.
unfoldable pub check_local : Cluster → ReplicaDirectory → Check (Unit {0})
unfolding current_replicas is_indexed
check_local c d = do
  local ←
      the_only
        (filter (λ r. r.node_id == c.node_name && r.disk_id == d.disk_id) (current_replicas c d))
        registered_local_replica_not_unique
  reject_if (not (is_indexed d.disk_id local.data_directory_name c.directories))
      registered_local_replica_directory_absent

-- The volume has engines, all stopped, and an attachment without tickets.
unfoldable pub check_engines : Cluster → ReplicaDirectory → Check (Unit {0})
unfolding engine_is_active
check_engines c d = do
  let volume_engines = filter (λ e. e.volume_name == d.volume_name) c.engines
  reject_if (nat_eq (length volume_engines) 0 || any engine_is_active volume_engines)
      volume_engine_not_fully_stopped
  attachment ←
      the_only (filter (λ a. is_live d.volume_name a.metadata) c.longhorn_attachments)
        longhorn_attachment_ticket_present
  reject_if (not (nat_eq (length attachment.tickets) 0)) longhorn_attachment_ticket_present

-- The claim is bound to the volume, and no pod or attachment uses it.
unfoldable pub check_claim : Cluster → ReplicaDirectory → KubernetesStatus → Check (Unit {0})
unfolding pv_is_unbound pvc_is_unbound pod_claim_reference_is_quiescent
check_claim c d k = do
  reject_if (not (truthy k.namespace) || (not (truthy k.pvc_name) || not (truthy k.pv_name)))
      kubernetes_volume_identity_incomplete
  pv ←
      the_only (filter (λ p. is_live k.pv_name p.metadata) c.pvs)
        persistent_volume_identity_not_unique
  reject_if (pv_is_unbound pv d.volume_name k.namespace k.pvc_name)
      persistent_volume_not_safely_bound
  pvc ←
      the_only
        (filter (λ p. p.metadata.namespace == k.namespace && is_live k.pvc_name p.metadata) c.pvcs)
        persistent_volume_claim_identity_not_unique
  reject_if (pvc_is_unbound pvc pv k.pv_name) persistent_volume_claim_not_safely_bound
  reject_if (any (λ p. not (pod_claim_reference_is_quiescent k.namespace k.pvc_name p)) c.pods)
      persistent_volume_claim_has_active_pod_reference
  reject_if (any (λ a. a.source_pv_name == k.pv_name) c.native_attachments)
      kubernetes_volume_attachment_present

unfoldable pub evaluate_directory :
    IsoReader
    → Cluster
    → List String
    → List String
    → ℕ
    → ℕ
    → ReplicaDirectory
    → Check ReclaimCandidate
evaluate_directory from_iso c ready inactive minimum_age_seconds minimum_reclaim_bytes d = do
  check_directory c minimum_age_seconds minimum_reclaim_bytes d
  volume ← check_volume c ready inactive d
  check_replicas from_iso c d volume
  check_local c d
  check_engines c d
  check_claim c d volume.kubernetes_status
  pass (record {
    directory = d;
    pvc_namespace = volume.kubernetes_status.namespace;
    pvc_name = volume.kubernetes_status.pvc_name;
    pv_name = volume.kubernetes_status.pv_name;
  })
