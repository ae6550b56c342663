-- ===== src/Attachment/Checks.antt =====
-- The reasons for which a volume is left alone, and the checks that both evaluations share.
use platform_gitops.Prelude.{
  ℕ, String, ◌==◌, Bool, not, ◌&&◌, ◌||◌, Option, none, some, List, [], ◌∷◌, filter,
}
use platform_gitops.Prelude.Result.{Result, ok, err, ◌>>=◌, ◌>>◌, raise_if}
use platform_gitops.Longhorn.Kube.{KubernetesStatus, truthy}
use platform_gitops.Attachment.Kube.{Volume, Engine, PersistentVolume, is_deleting}

pub data Reason : Type 0 where
  volume_missing_or_deleting volume_not_attaching volume_robustness_not_recoverable
        invalid_volume_size invalid_volume_size_or_replica_count volume_has_no_proven_data
        volume_has_insufficient_declared_redundancy volume_not_nonmigratable_rwo
        volume_migration_active volume_target_state_not_stuck_signature
        kubernetes_volume_identity_mismatch engine_cardinality_not_one engine_not_stopped_unassigned
        conflicting_csi_ticket_target_present pending_controller_managed_consumer_absent
        other_active_consumer_present old_successful_native_attachment_cardinality_not_one
        insufficient_safe_running_replicas unmapped_stopped_replica_cardinality_not_one
        active_unsatisfied_csi_ticket_absent old_failed_native_attachment_cardinality_not_one :
      Reason

abbrev pub Check : Type 0 → Type 0
Check A = Result Reason A

-- `if len(items) != 1: return None, reason`, and the item.
unfoldable pub the_only : {A : Type 0} → List A → Reason → Check A
the_only [] r = err r
the_only (a ∷ []) r = ok a
the_only (a ∷ b ∷ rest) r = err r

-- `int(value or 0)`, and the reason where it raises.
unfoldable pub readable : Option ℕ → Reason → Check ℕ
readable none r = err r
readable (some n) r = ok n

unfoldable pub check_attaching : Volume → Check (Unit {0})
check_attaching v = do
  raise_if (not (truthy v.metadata.name) || is_deleting v.metadata) volume_missing_or_deleting
  raise_if (not (v.state == "attaching")) volume_not_attaching
  raise_if (not (v.robustness == "unknown" || v.robustness == "degraded"))
      volume_robustness_not_recoverable

unfoldable pub check_access : Volume → Check (Unit {0})
check_access v = do
  raise_if (not (v.access_mode == "rwo") || v.migratable) volume_not_nonmigratable_rwo
  raise_if (truthy v.migration_node_id || truthy v.current_migration_node_id)
      volume_migration_active

unfoldable pub check_target : Volume → Check (Unit {0})
check_target v =
    raise_if (not (truthy v.node_id) || truthy v.current_node_id)
      volume_target_state_not_stuck_signature

unfoldable pub names_volume : PersistentVolume → KubernetesStatus → String → Bool
names_volume pv k volume_name =
    truthy k.namespace
    && (truthy k.pvc_name
        && (truthy k.pv_name
            && (pv.metadata.name == k.pv_name
                && (pv.csi_driver == "driver.longhorn.io" && pv.volume_handle == volume_name))))

unfoldable pub is_stopped : Engine → Bool
is_stopped e =
    not (truthy e.node_id)
    && (e.desire_state == "stopped"
        && (e.current_state == "stopped"
            && (not (truthy e.instance_manager_name) && not (truthy e.ip))))

-- The volume's live engines, of which there must be one, without a node.
unfoldable pub volume_engines : String → List Engine → List Engine
volume_engines volume_name =
    filter (λ e. e.volume_name == volume_name && not (is_deleting e.metadata))

unfoldable pub check_engine : Volume → List Engine → Check Engine
unfolding volume_engines the_only is_stopped
check_engine v engines = do
  engine ← the_only (volume_engines v.metadata.name engines) engine_cardinality_not_one
  raise_if (not (is_stopped engine)) engine_not_stopped_unassigned
  ok engine
