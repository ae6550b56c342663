-- ===== src/Attachment/Witnesses.antt =====
-- The theorems at the clusters of Attachment/Examples.
use platform_gitops.Prelude.{◌≡◌, refl, true, false, List, [], ◌∷◌, map}
use platform_gitops.Prelude.Sorting.{sorted}
use platform_gitops.Prelude.Result.{ok}
use platform_gitops.Attachment.Kube.{
  Engine, Replica, has_controller, pod_uses_claim, object_age, csi_ticket_nodes,
  replica_history_is_safe, is_registered,
}
use platform_gitops.Attachment.Checks.{
  volume_engines, check_attaching, check_access, check_target, check_engine,
}
use platform_gitops.Attachment.Evaluate.{
  Candidate, StaleNativeAttachmentCandidate, evaluate_candidate,
  evaluate_stale_native_attachment_candidate, check_data, check_identity, is_old, check_tickets,
  check_only_waiting, is_stale_attachment, stale_of, check_redundancy, check_healthy, is_unmapped,
  check_ticket, is_failed_attachment, check_waiting, candidate_of,
}
use platform_gitops.Attachment.Actions.{
  collected, slept, delete_pod, delete_attachment, get_attachment, quarantine_replica, get_state,
}
use platform_gitops.Attachment.Repair.{repair}
use platform_gitops.Attachment.Traces.{IsJustified}
use platform_gitops.Attachment.Sound.{IsOrphan, evaluate_candidate-IsOrphan}
use platform_gitops.Attachment.Idle.{IsIdle, evaluate_stale-IsIdle}
use platform_gitops.Attachment.OnlyProven.{repair-IsJustified}
use platform_gitops.Attachment.Examples.{from_iso, volume, cluster, kube}

abbrev candidate : Candidate
candidate = record {
  volume_name = "pvc-1";
  engine_name = "pvc-1-e-0";
  pv_name = "pv-1";
  namespace = "apps";
  pvc_name = "data";
  target_node = "node-1";
  attachment_name = "csi-1";
  orphan_replica = "r-3";
  orphan_node = "node-3";
  orphan_disk_id = "disk-9";
  orphan_disk_path = "/var/lib/longhorn";
  healthy_replicas = "r-1" ∷ "r-2" ∷ [];
  consumer_pods = "forgejo-0" ∷ [];
}

found : evaluate_candidate from_iso (cluster false) 120 volume ≡ ok candidate
unfolding evaluate_candidate check_attaching check_access check_target check_engine check_identity
    is_old check_redundancy check_healthy is_unmapped check_ticket is_failed_attachment
    check_waiting candidate_of has_controller pod_uses_claim object_age replica_history_is_safe
    is_registered
found = refl

abbrev stale : StaleNativeAttachmentCandidate
stale = record {
  volume_name = "pvc-1";
  pv_name = "pv-1";
  namespace = "apps";
  pvc_name = "data";
  target_node = "node-1";
  attachment_name = "csi-1";
  attachment_uid = "uid-1";
  consumer_pods = "forgejo-0" ∷ [];
}

found_stale :
    evaluate_stale_native_attachment_candidate from_iso (cluster true) 120 volume ≡ ok stale
unfolding evaluate_stale_native_attachment_candidate check_attaching check_access check_target
    check_engine check_data check_identity is_old check_tickets check_only_waiting
    is_stale_attachment stale_of has_controller pod_uses_claim object_age csi_ticket_nodes
found_stale = refl

evaluate_stale-IsIdle_example : IsIdle from_iso (cluster true) 120 volume stale
evaluate_stale-IsIdle_example =
    evaluate_stale-IsIdle from_iso (cluster true) 120 volume stale found_stale

evaluate_candidate-IsOrphan_example :
    (candidate.volume_name ≡ volume.metadata.name)
    × ((e : Engine) × (volume_engines volume.metadata.name (cluster false).engines ≡ e ∷ [])
        × (e.metadata.name ≡ "pvc-1-e-0")
        × (e.node_id ≡ "")
        × (e.current_state ≡ "stopped"))
    × ((r : Replica) × (healthy : List Replica) × (r.metadata.name ≡ "r-3")
        × (sorted (map (λ s. s.metadata.name) healthy) ≡ "r-1" ∷ "r-2" ∷ [])
        × IsOrphan from_iso (cluster false) 120 volume r healthy)
evaluate_candidate-IsOrphan_example =
    evaluate_candidate-IsOrphan from_iso (cluster false) 120 volume candidate found

repair-IsJustified_example : IsJustified from_iso 120 (repair from_iso (kube true) 120 30 60 []).0
repair-IsJustified_example = repair-IsJustified from_iso 120 (kube true) 30 60

-- The calls of a repair in each cluster, newest first.
recycled : repair from_iso (kube true) 120 30 60 [] ≡ (
  get_attachment "csi-1"
      ∷ delete_attachment "csi-1"
      ∷ delete_pod "apps" "forgejo-0"
      ∷ collected (cluster true)
      ∷ slept 30
      ∷ collected (cluster true)
      ∷ [],
  ok 0,
)
unfolding repair evaluate_stale_native_attachment_candidate check_attaching check_access
    check_target check_engine check_data check_identity is_old check_tickets check_only_waiting
    is_stale_attachment stale_of has_controller pod_uses_claim object_age csi_ticket_nodes
recycled = refl

quarantined : repair from_iso (kube false) 120 0 60 [] ≡ (
  get_state "pvc-1" "pvc-1-e-0"
      ∷ quarantine_replica "r-3" "2026-08-20T09:00:00Z"
      ∷ collected (cluster false)
      ∷ collected (cluster false)
      ∷ [],
  ok 0,
)
unfolding repair evaluate_candidate check_attaching check_access check_target check_engine
    check_identity is_old check_redundancy check_healthy is_unmapped check_ticket
    is_failed_attachment check_waiting candidate_of has_controller pod_uses_claim object_age
    replica_history_is_safe is_registered evaluate_stale_native_attachment_candidate check_data
    check_tickets check_only_waiting is_stale_attachment stale_of csi_ticket_nodes
quarantined = refl
