-- ===== src/Pressure/Witnesses.antt =====
-- The theorem at a node with one disk and one replica in its annotation.
use platform_gitops.Prelude.{◌≡◌, refl, true, false, some, [], ◌∷◌}
use platform_gitops.Prelude.Result.{ok}
use platform_gitops.Pressure.Restore.{
  DiskState, ReplicaState, object, PressureNode, annotation_state, is_valid_disk, is_valid_replica,
  is_version_one, checked_members, with_replicas, with_disks, patch_replica, patch_node, done,
  Kubectl, restore_replicas, restore_node, then_node, restore_legacy_state, run_on, run,
}
use platform_gitops.Pressure.Restored.{ArePrevented, IsRestored, run-IsRestored}

abbrev disk : DiskState
disk = record {
  disk_name = "default-disk";
  only_both = true;
  allow_scheduling = some true;
  eviction_requested = some false;
}

abbrev gone : DiskState
gone = record disk { disk_name = "old-disk" }

abbrev replica : ReplicaState
replica = record { replica_name = "pvc-1-r-1"; original = some false }

abbrev node : PressureNode
node = record {
  annotation = object (record {
    version = some 1;
    node = "node-1";
    disks = some (disk ∷ gone ∷ []);
    replicas = some (replica ∷ []);
  });
  disk_names = "default-disk" ∷ [];
}

abbrev kube : Kubectl
kube change made = done

reads : annotation_state node.annotation "node-1" ≡ ok (some (disk ∷ gone ∷ [], replica ∷ []))
unfolding annotation_state is_valid_disk is_valid_replica is_version_one checked_members
    with_replicas with_disks
reads = refl

run-IsRestored_example :
    ArePrevented (replica ∷ [])
    × IsRestored kube "node-1"
        (disk ∷ gone ∷ [])
        (replica ∷ [])
        ("default-disk" ∷ [])
        (run kube "node-1" (some node))
run-IsRestored_example = run-IsRestored kube "node-1" node (disk ∷ gone ∷ []) (replica ∷ []) reads

restored :
    run kube "node-1" (some node)
    ≡ (patch_node "node-1" (disk ∷ []) ∷ patch_replica "pvc-1-r-1" (some false) ∷ [], ok tt)
unfolding annotation_state is_valid_disk is_valid_replica is_version_one checked_members
    with_replicas with_disks restore_replicas restore_node then_node restore_legacy_state run_on run
restored = refl
