-- ===== src/Longhorn/Examples.antt =====
-- A cluster of three nodes with one stale directory, as in the script's tests, and the theorems at it.
use platform_gitops.Prelude.{ℕ, ◌*◌, String, true, false, some, List, [], ◌∷◌}
use platform_gitops.Longhorn.Kube.{
  Metadata, Condition, KubeNode, LonghornNode, Pod, Volume, Replica,
}
use platform_gitops.Longhorn.Disks.{IsoReader}
use platform_gitops.Longhorn.Candidate.{ReplicaDirectory, ReclaimCandidate, Cluster}
use platform_gitops.Longhorn.Select.{Selection, Settings, select_candidate}

abbrev pub volume_name : String
volume_name = "pvc-0123abcd-0123-4567-89ab-0123456789ab"

abbrev pub live_name : String
live_name = "pvc-0123abcd-0123-4567-89ab-0123456789ab-1113cf9e"

abbrev pub stale_name : String
stale_name = "pvc-0123abcd-0123-4567-89ab-0123456789ab-8e679fdc"

abbrev pub named : String → Metadata
named name = record {
  name = name;
  namespace = "";
  uid = "";
  deletion_timestamp = "";
  annotations = [];
}

abbrev pub condition : String → String → Condition
condition kind status = record { kind = kind; status = some status; reason = some "" }

abbrev pub longhorn_node : String → String → LonghornNode
longhorn_node name disk_id = record {
  metadata = named name;
  conditions = condition "Ready" "True" ∷ [];
  disks =
      record {
        disk_name = "default-disk";
        spec_path = "/var/lib/longhorn";
        spec_type = some "filesystem";
        eviction_requested = false;
      }
      ∷ [];
  disk_status =
      record {
        status_name = "default-disk";
        disk_uuid = disk_id;
        status_path = "/var/lib/longhorn";
        status_type = some "filesystem";
      }
      ∷ [];
}

abbrev pub manager_pod : String → Pod
manager_pod node = record {
  metadata = named node;
  phase = "Running";
  node_name = node;
  nominated_node_name = "";
  containers = "manager" ∷ [];
  container_statuses = record { name = "manager"; running = true; ready = true } ∷ [];
  claims = [];
}

abbrev pub replica : String → String → String → Replica
replica node disk_id directory = record {
  metadata = named node;
  volume_name = volume_name;
  node_id = node;
  disk_id = disk_id;
  data_directory_name = directory;
  active = true;
  desire_state = "stopped";
  eviction_requested = false;
  failed_at = "";
  last_healthy_at = "2026-08-20T08:00:00Z";
  healthy_at = "2026-08-20T08:00:00Z";
  last_failed_at = "";
  current_state = "stopped";
  instance_manager_name = "";
}

abbrev pub directory : String → ℕ → ReplicaDirectory
directory name inode = record {
  volume_name = volume_name;
  directory_name = name;
  path = record { parent = "/var/lib/longhorn/replicas"; name = name };
  disk_name = "default-disk";
  disk_id = "disk-1";
  allocated_bytes = 32 * 1073741824;
  newest_mtime_ns = 1000000000;
  device = 1;
  inode = inode;
  tombstone = false;
}

abbrev pub volume : Volume
volume = record {
  metadata = named volume_name;
  number_of_replicas = some 2;
  data_engine = some "v1";
  spec_node_id = "";
  migration_node_id = "";
  from_backup = "";
  owner_id = "node-2";
  state = "detached";
  current_node_id = "";
  current_migration_node_id = "";
  restore_required = false;
  actual_size = some 1024;
  kubernetes_status = record { namespace = "apps"; pvc_name = "data"; pv_name = "pv-1" };
}

abbrev pub cluster : Cluster
cluster = record {
  node_name = "node-1";
  volumes = volume ∷ [];
  replicas =
      replica "node-1" "disk-1" live_name
      ∷ replica "node-2" "disk-2" "pvc-0123abcd-0123-4567-89ab-0123456789ab-22222222"
      ∷ [];
  engines =
      record {
        metadata = named "engine";
        volume_name = volume_name;
        node_id = "";
        desire_state = "stopped";
        current_state = "stopped";
        instance_manager_name = "";
      }
      ∷ [];
  longhorn_attachments = record { metadata = named volume_name; tickets = [] } ∷ [];
  native_attachments = record { source_pv_name = "other" } ∷ [];
  pvs =
      record {
        metadata = named "pv-1";
        phase = "Bound";
        csi_driver = "driver.longhorn.io";
        csi_volume_handle = volume_name;
        claim_namespace = "apps";
        claim_name = "data";
        claim_uid = "uid-1";
      }
      ∷ [];
  pvcs =
      record {
        metadata = record (named "data") { namespace = "apps"; uid = "uid-1" };
        phase = "Bound";
        volume_name = "pv-1";
      }
      ∷ [];
  pods = manager_pod "node-1" ∷ [];
  nodes =
      longhorn_node "node-1" "disk-1"
      ∷ longhorn_node "node-2" "disk-2"
      ∷ longhorn_node "node-3" "disk-3"
      ∷ [];
  directories = directory live_name 1 ∷ directory stale_name 2 ∷ [];
  now_ns = 10000000000000;
}

abbrev pub reads_all : IsoReader
reads_all value = some 7

abbrev pub candidate : ReclaimCandidate
candidate = record {
  directory = directory stale_name 2;
  pvc_namespace = "apps";
  pvc_name = "data";
  pv_name = "pv-1";
}

abbrev pub kube_node : KubeNode
kube_node = record {
  conditions =
      condition "Ready" "True"
      ∷ condition "DiskPressure" "True"
      ∷ condition "MemoryPressure" "False"
      ∷ condition "PIDPressure" "False"
      ∷ condition "NetworkUnavailable" "False"
      ∷ [];
}

abbrev pub managers : List Pod
managers = manager_pod "node-1" ∷ manager_pod "node-2" ∷ manager_pod "node-3" ∷ []

abbrev pub settings : Settings
settings = record { deletion_modes = "replica-data" ∷ "instance" ∷ []; grace_period = some 300 }

selection : Selection
selection = select_candidate reads_all cluster kube_node managers settings 3600 1073741824
