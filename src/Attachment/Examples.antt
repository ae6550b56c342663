-- ===== src/Attachment/Examples.antt =====
-- A volume whose stale native attachment claims to be attached, and one that waits for a replica on a
-- disk that is gone.
use platform_gitops.Prelude.{
  ◌*◌, String, ◌==◌, Bool, true, false, none, some, [], ◌∷◌, if◌then◌else◌,
}
use platform_gitops.Longhorn.Disks.{IsoReader}
use platform_gitops.Attachment.Kube.{
  Metadata, Pod, Volume, Engine, Replica, LonghornNode, NativeAttachment,
}
use platform_gitops.Attachment.Evaluate.{Cluster}
use platform_gitops.Attachment.Actions.{Kube}

-- Of the times below, one is earlier.
abbrev pub from_iso : IsoReader
from_iso s = some (if s == "2026-08-20T08:00:00Z" then 0 else 3600 * 1000000)

abbrev pub named : String → Metadata
named name = record {
  name = name;
  namespace = "apps";
  uid = "uid-1";
  creation_timestamp = "2026-08-20T08:00:00Z";
  deletion_timestamp = "";
  controllers = true ∷ [];
}

abbrev pub pod : Pod
pod = record {
  metadata = named "forgejo-0";
  node_name = "node-1";
  phase = "Pending";
  claims = some "data" ∷ [];
}

abbrev pub volume : Volume
volume = record {
  metadata = named "pvc-1";
  node_id = "node-1";
  access_mode = "rwo";
  migratable = false;
  migration_node_id = "";
  number_of_replicas = some 3;
  state = "attaching";
  robustness = "degraded";
  actual_size = some 4096;
  current_node_id = "";
  current_migration_node_id = "";
  kubernetes_status = record { namespace = "apps"; pvc_name = "data"; pv_name = "pv-1" };
}

abbrev pub engine : Engine
engine = record {
  metadata = named "pvc-1-e-0";
  volume_name = "pvc-1";
  node_id = "";
  desire_state = "stopped";
  current_state = "stopped";
  instance_manager_name = "";
  ip = "";
}

abbrev pub replica : String → String → String → String → Replica
replica name node disk state = record {
  metadata = named name;
  volume_name = "pvc-1";
  node_id = node;
  disk_id = disk;
  disk_path = "/var/lib/longhorn";
  active = true;
  desire_state = "running";
  healthy_at = "2026-08-20T08:00:00Z";
  failed_at = "";
  last_healthy_at = "2026-08-20T08:00:00Z";
  last_failed_at = "";
  current_state = state;
  ip = "10.0.0.1";
  storage_ip = "10.0.0.1";
  port = 10000;
}

abbrev pub node : String → String → LonghornNode
node name disk = record { metadata = named name; disk_uuids = disk ∷ [] }

abbrev pub attachment : Bool → NativeAttachment
attachment attached = record {
  metadata = named "csi-1";
  attacher = "driver.longhorn.io";
  source_pv_name = "pv-1";
  node_name = "node-1";
  attached = attached;
  error_message = "volume pvc-1 is not ready for workloads";
}

abbrev pub cluster : Bool → Cluster
cluster attached = record {
  volumes = volume ∷ [];
  engines = engine ∷ [];
  replicas =
      replica "r-1" "node-1" "disk-1" "running"
      ∷ replica "r-2" "node-2" "disk-2" "running"
      ∷ replica "r-3" "node-3" "disk-9" "stopped"
      ∷ [];
  nodes = node "node-1" "disk-1" ∷ node "node-2" "disk-2" ∷ node "node-3" "disk-3" ∷ [];
  attachment_of = λ name. record {
    exists = true;
    tickets =
        record { id = "t"; kind = "csi-attacher"; node_id = "node-1"; satisfied = false } ∷ [];
  };
  native_attachments = attachment attached ∷ [];
  pv_of = λ name. record {
    metadata = named name;
    csi_driver = "driver.longhorn.io";
    volume_handle = "pvc-1";
  };
  pods = pod ∷ [];
  now = 3600 * 1000000;
}

-- Every call succeeds, the deleted attachment is not found, and the engine runs.
abbrev pub kube : Bool → Kube
kube attached = record {
  collect = λ t. some (cluster attached);
  succeeds = λ call t. some true;
  attachment_uid = λ name t. some none;
  engine_state = λ v e t. some (record {
    state = "attached";
    robustness = "degraded";
    current_node = "node-1";
    engine_node = "node-1";
    desired = "running";
    current = "running";
  });
  failed_at = λ t. "2026-08-20T09:00:00Z";
}
