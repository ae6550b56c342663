-- ===== src/Attachment/Evaluate.antt =====
-- evaluate_stale_native_attachment_candidate and evaluate_candidate.
use platform_gitops.Prelude.{
  ℕ, ◌*◌, String, ◌==◌, Bool, false, not, ◌&&◌, ◌||◌, Option, none, some, List, map, any, filter,
  length, distinct, ltb, leb, nat_eq,
}
use platform_gitops.Prelude.Sorting.{sorted}
use platform_gitops.Prelude.Result.{ok, ◌>>=◌, ◌>>◌, raise_if}
use platform_gitops.Longhorn.Kube.{truthy}
use platform_gitops.Longhorn.Disks.{IsoReader}
use platform_gitops.Attachment.Kube.{
  Pod, Volume, Engine, Replica, LonghornNode, LonghornAttachment, NativeAttachment,
  PersistentVolume, is_deleting, object_age, has_controller, pod_uses_claim, ticket_is_active,
  csi_ticket_nodes, is_registered, replica_history_is_safe,
}
use platform_gitops.Attachment.Checks.{
  Check, the_only, readable, check_attaching, check_access, check_target, names_volume,
  check_engine, invalid_volume_size, invalid_volume_size_or_replica_count,
  volume_has_no_proven_data, volume_has_insufficient_declared_redundancy,
  kubernetes_volume_identity_mismatch, conflicting_csi_ticket_target_present,
  pending_controller_managed_consumer_absent, other_active_consumer_present,
  old_successful_native_attachment_cardinality_not_one, insufficient_safe_running_replicas,
  unmapped_stopped_replica_cardinality_not_one, active_unsatisfied_csi_ticket_absent,
  old_failed_native_attachment_cardinality_not_one,
}

pub record Candidate : Type 0 where
  pub volume_name : String
  pub engine_name : String
  pub pv_name : String
  pub namespace : String
  pub pvc_name : String
  pub target_node : String
  pub attachment_name : String
  pub orphan_replica : String
  pub orphan_node : String
  pub orphan_disk_id : String
  pub orphan_disk_path : String
  pub healthy_replicas : List String
  pub consumer_pods : List String

pub record StaleNativeAttachmentCandidate : Type 0 where
  pub volume_name : String
  pub pv_name : String
  pub namespace : String
  pub pvc_name : String
  pub target_node : String
  pub attachment_name : String
  pub attachment_uid : String
  pub consumer_pods : List String

-- What one collection hands to the evaluation of each volume; a dictionary is a function to what it
-- has for a name, or its default.
pub record Cluster : Type 0 where
  pub volumes : List Volume
  pub engines : List Engine
  pub replicas : List Replica
  pub nodes : List LonghornNode
  pub attachment_of : String → LonghornAttachment
  pub native_attachments : List NativeAttachment
  pub pv_of : String → PersistentVolume
  pub pods : List Pod
  pub now : ℕ

-- `age is not None and age >= minimum_age_seconds`, in microseconds.
unfoldable pub is_old : ℕ → Option ℕ → Bool
is_old minimum none = false
is_old minimum (some age) = leb (minimum * 1000000) age

unfoldable pub stale_of : Volume → NativeAttachment → List Pod → StaleNativeAttachmentCandidate
unfolding sorted
stale_of v attachment consumers = record {
  volume_name = v.metadata.name;
  pv_name = v.kubernetes_status.pv_name;
  namespace = v.kubernetes_status.namespace;
  pvc_name = v.kubernetes_status.pvc_name;
  target_node = v.node_id;
  attachment_name = attachment.metadata.name;
  attachment_uid = attachment.metadata.uid;
  consumer_pods = sorted (map (λ p. p.metadata.name) consumers);
}

unfoldable pub candidate_of :
    Volume → Engine → List Replica → Replica → NativeAttachment → List Pod → Candidate
unfolding sorted
candidate_of v engine healthy_replicas orphan attachment consumers = record {
  volume_name = v.metadata.name;
  engine_name = engine.metadata.name;
  pv_name = v.kubernetes_status.pv_name;
  namespace = v.kubernetes_status.namespace;
  pvc_name = v.kubernetes_status.pvc_name;
  target_node = v.node_id;
  attachment_name = attachment.metadata.name;
  orphan_replica = orphan.metadata.name;
  orphan_node = orphan.node_id;
  orphan_disk_id = orphan.disk_id;
  orphan_disk_path = orphan.disk_path;
  healthy_replicas = sorted (map (λ r. r.metadata.name) healthy_replicas);
  consumer_pods = sorted (map (λ p. p.metadata.name) consumers);
}

module _ (from_iso : IsoReader) (c : Cluster) (minimum : ℕ) (v : Volume) where
  -- Live pods of the claim, and those of them that wait for the volume on its node.
  unfoldable pub uses_claim : Pod → Bool
  uses_claim p =
      p.metadata.namespace == v.kubernetes_status.namespace
      && (not (is_deleting p.metadata) && pod_uses_claim v.kubernetes_status.pvc_name p)

  unfoldable pub is_waiting : Pod → Bool
  is_waiting p = p.node_name == v.node_id && (p.phase == "Pending" && has_controller p.metadata)

  unfoldable pub is_stale_attachment : NativeAttachment → Bool
  is_stale_attachment a =
      not (is_deleting a.metadata)
      && (truthy a.metadata.uid
          && (a.attacher == "driver.longhorn.io"
              && (a.source_pv_name == v.kubernetes_status.pv_name
                  && (a.node_name == v.node_id
                      && (a.attached && is_old minimum (object_age from_iso c.now a.metadata))))))

  unfoldable pub check_tickets : Check (Unit {0})
  check_tickets =
      raise_if
        (any (λ n. not (n == v.node_id)) (csi_ticket_nodes (c.attachment_of v.metadata.name)))
        conflicting_csi_ticket_target_present

  unfoldable pub check_only_waiting : Check (List Pod)
  unfolding uses_claim is_waiting
  check_only_waiting = do
    let claim_consumers = filter uses_claim c.pods
    let consumers = filter is_waiting claim_consumers
    raise_if (nat_eq (length consumers) 0) pending_controller_managed_consumer_absent
    raise_if (not (nat_eq (length consumers) (length claim_consumers)))
        other_active_consumer_present
    ok consumers

  unfoldable pub check_data : Check (Unit {0})
  unfolding readable
  check_data = do
    actual_size ← readable v.actual_size invalid_volume_size
    raise_if (nat_eq actual_size 0) volume_has_no_proven_data

  unfoldable pub check_identity : Check (Unit {0})
  unfolding names_volume
  check_identity =
      raise_if
        (not
          (names_volume (c.pv_of v.kubernetes_status.pv_name) v.kubernetes_status v.metadata.name))
        kubernetes_volume_identity_mismatch

  unfoldable pub evaluate_stale_native_attachment_candidate : Check StaleNativeAttachmentCandidate
  evaluate_stale_native_attachment_candidate = do
    check_attaching v
    check_data
    check_access v
    check_target v
    check_identity
    engine ← check_engine v c.engines
    check_tickets
    consumers ← check_only_waiting
    attachment ←
        the_only (filter is_stale_attachment c.native_attachments)
          old_successful_native_attachment_cardinality_not_one
    ok (stale_of v attachment consumers)

  unfoldable pub volume_replicas : List Replica
  volume_replicas =
      filter (λ r. r.volume_name == v.metadata.name && not (is_deleting r.metadata)) c.replicas

  unfoldable pub is_healthy : Replica → Bool
  is_healthy r =
      r.active
      && (r.desire_state == "running"
          && (truthy r.healthy_at
              && (not (truthy r.failed_at)
                  && (replica_history_is_safe from_iso r
                      && (r.current_state == "running"
                          && (truthy r.ip
                              && (truthy r.storage_ip
                                  && (ltb 0 r.port
                                      && (truthy r.node_id
                                          && is_registered r.node_id r.disk_id c.nodes)))))))))

  unfoldable pub is_unmapped : Replica → Bool
  is_unmapped r =
      r.active
      && (r.desire_state == "running"
          && (truthy r.healthy_at
              && (not (truthy r.failed_at)
                  && (r.current_state == "stopped"
                      && (truthy r.node_id
                          && (truthy r.disk_id
                              && (truthy r.disk_path
                                  && not (is_registered r.node_id r.disk_id c.nodes))))))))

  unfoldable pub check_redundancy : Check (Unit {0})
  unfolding readable
  check_redundancy = do
    actual_size ← readable v.actual_size invalid_volume_size_or_replica_count
    declared_replicas ← readable v.number_of_replicas invalid_volume_size_or_replica_count
    raise_if (nat_eq actual_size 0) volume_has_no_proven_data
    raise_if (ltb declared_replicas 3) volume_has_insufficient_declared_redundancy

  unfoldable pub check_healthy : Check (List Replica)
  unfolding volume_replicas is_healthy
  check_healthy = do
    let healthy_replicas = filter is_healthy volume_replicas
    let healthy_nodes = distinct (map (λ r. r.node_id) healthy_replicas)
    raise_if (ltb (length healthy_replicas) 2 || ltb (length healthy_nodes) 2)
        insufficient_safe_running_replicas
    ok healthy_replicas

  unfoldable pub is_failed_attachment : NativeAttachment → Bool
  is_failed_attachment a =
      not (is_deleting a.metadata)
      && (a.attacher == "driver.longhorn.io"
          && (a.source_pv_name == v.kubernetes_status.pv_name
              && (a.node_name == v.node_id
                  && (not a.attached
                      && (truthy a.error_message
                          && is_old minimum (object_age from_iso c.now a.metadata))))))

  unfoldable pub check_ticket : Check (Unit {0})
  unfolding ticket_is_active
  check_ticket =
      raise_if
        (not (c.attachment_of v.metadata.name).exists
          || not (ticket_is_active v.node_id (c.attachment_of v.metadata.name)))
        active_unsatisfied_csi_ticket_absent

  unfoldable pub check_waiting : Check (List Pod)
  unfolding uses_claim is_waiting
  check_waiting = do
    let consumers = filter (λ p. uses_claim p && is_waiting p) c.pods
    raise_if (nat_eq (length consumers) 0) pending_controller_managed_consumer_absent
    ok consumers

  unfoldable pub evaluate_candidate : Check Candidate
  evaluate_candidate = do
    check_attaching v
    check_redundancy
    check_access v
    check_target v
    check_identity
    engine ← check_engine v c.engines
    healthy_replicas ← check_healthy
    orphan ←
        the_only (filter is_unmapped volume_replicas) unmapped_stopped_replica_cardinality_not_one
    check_ticket
    attachment ←
        the_only (filter is_failed_attachment c.native_attachments)
          old_failed_native_attachment_cardinality_not_one
    consumers ← check_waiting
    ok (candidate_of v engine healthy_replicas orphan attachment consumers)
