-- ===== src/Longhorn/Kube.antt =====
-- The fields of the Kubernetes and Longhorn documents that the script reads. A member that a
-- document lacks is the empty text, `none`, `false` or the empty list here: the code reads such a
-- member with a default, and compares it only with texts that are not empty.
use platform_gitops.Prelude.{
  ℕ, String, ◌==◌, Bool, not, Option, none, some, List, [], ◌∷◌, if◌then◌else◌,
}

pub record Metadata : Type 0 where
  pub name : String
  pub namespace : String
  pub uid : String
  pub deletion_timestamp : String
  pub annotations : List (String × String)

pub record Condition : Type 0 where
  pub kind : String
  pub status : Option String
  pub reason : Option String

-- `kubectl get node`, of which the script reads the conditions.
pub record KubeNode : Type 0 where
  pub conditions : List Condition

pub record Disk : Type 0 where
  pub disk_name : String
  pub spec_path : String
  pub spec_type : Option String
  pub eviction_requested : Bool

pub record DiskStatus : Type 0 where
  pub status_name : String
  pub disk_uuid : String
  pub status_path : String
  pub status_type : Option String

pub record LonghornNode : Type 0 where
  pub metadata : Metadata
  pub conditions : List Condition
  pub disks : List Disk
  pub disk_status : List DiskStatus

pub record ContainerStatus : Type 0 where
  pub name : String
  pub running : Bool
  pub ready : Bool

pub record Pod : Type 0 where
  pub metadata : Metadata
  pub phase : String
  pub node_name : String
  pub nominated_node_name : String
  pub containers : List String
  pub container_statuses : List ContainerStatus
  -- `persistentVolumeClaim.claimName` of each volume
  pub claims : List (Option String)

pub record KubernetesStatus : Type 0 where
  pub namespace : String
  pub pvc_name : String
  pub pv_name : String

pub record Volume : Type 0 where
  pub metadata : Metadata
  pub number_of_replicas : Option ℕ
  pub data_engine : Option String
  pub spec_node_id : String
  pub migration_node_id : String
  pub from_backup : String
  pub owner_id : String
  pub state : String
  pub current_node_id : String
  pub current_migration_node_id : String
  pub restore_required : Bool
  pub actual_size : Option ℕ
  pub kubernetes_status : KubernetesStatus

pub record Replica : Type 0 where
  pub metadata : Metadata
  pub volume_name : String
  pub node_id : String
  pub disk_id : String
  pub data_directory_name : String
  pub active : Bool
  pub desire_state : String
  pub eviction_requested : Bool
  pub failed_at : String
  pub last_healthy_at : String
  pub healthy_at : String
  pub last_failed_at : String
  pub current_state : String
  pub instance_manager_name : String

pub record Engine : Type 0 where
  pub metadata : Metadata
  pub volume_name : String
  pub node_id : String
  pub desire_state : String
  pub current_state : String
  pub instance_manager_name : String

pub record LonghornAttachment : Type 0 where
  pub metadata : Metadata
  pub tickets : List String

pub record NativeAttachment : Type 0 where
  pub source_pv_name : String

pub record PersistentVolume : Type 0 where
  pub metadata : Metadata
  pub phase : String
  pub csi_driver : String
  pub csi_volume_handle : String
  pub claim_namespace : String
  pub claim_name : String
  pub claim_uid : String

pub record PersistentVolumeClaim : Type 0 where
  pub metadata : Metadata
  pub phase : String
  pub volume_name : String

-- The truth value of a text.
abbrev pub truthy : String → Bool
truthy s = not (s == "")

unfoldable pub integer : Option ℕ → ℕ → ℕ
integer none default = default
integer (some n) default = n

unfoldable pub get_text : Option String → String → String
get_text none default = default
get_text (some s) default = s

unfoldable pub condition_entry : List Condition → String → Condition
condition_entry [] condition_type = record { kind = ""; status = none; reason = none }
condition_entry (condition ∷ rest) condition_type =
    if condition.kind == condition_type then condition else condition_entry rest condition_type

unfoldable pub condition_status : List Condition → String → String
unfolding condition_entry get_text
condition_status conditions t = get_text (condition_entry conditions t).status "Unknown"

unfoldable pub condition_reason : List Condition → String → String
unfolding condition_entry get_text
condition_reason conditions t = get_text (condition_entry conditions t).reason ""

-- The status of a container: the last of that name, as in a dictionary built from the list.
unfoldable pub status_of : String → List ContainerStatus → Option ContainerStatus
status_of name [] = none
status_of name (s ∷ rest) = elim (status_of name rest) [
  | some later ↦ some later
  | none ↦ if s.name == name then some s else none
]
