-- ===== src/Attachment/Kube.antt =====
-- The fields of the documents that the script reads. A member that a document lacks is the empty text,
-- `false`, 0 or the empty list: the code reads it with such a default, or compares it only with
-- texts that are not empty. `int(value or 0)` is `none` where it raises, and 0 for negative numbers,
-- which are compared only with positive ones.
use platform_gitops.Prelude.{
  ℕ, ◌-◌, String, ◌==◌, Bool, false, not, ◌&&◌, Option, none, some, List, [], ◌∷◌, map, any,
  contains, filter, if◌then◌else◌,
}
use platform_gitops.Longhorn.Kube.{KubernetesStatus, truthy}
use platform_gitops.Longhorn.Disks.{IsoReader, parse_timestamp, healthy_after}

pub record Metadata : Type 0 where
  pub name : String
  pub namespace : String
  pub uid : String
  pub creation_timestamp : String
  pub deletion_timestamp : String
  -- `owner.get("controller") is True` of each owner reference
  pub controllers : List Bool

pub record Pod : Type 0 where
  pub metadata : Metadata
  pub node_name : String
  pub phase : String
  -- `persistentVolumeClaim.claimName` of each volume
  pub claims : List (Option String)

pub record Volume : Type 0 where
  pub metadata : Metadata
  pub node_id : String
  pub access_mode : String
  pub migratable : Bool
  pub migration_node_id : String
  pub number_of_replicas : Option ℕ
  pub state : String
  pub robustness : String
  pub actual_size : Option ℕ
  pub current_node_id : String
  pub current_migration_node_id : String
  pub kubernetes_status : KubernetesStatus

pub record Engine : Type 0 where
  pub metadata : Metadata
  pub volume_name : String
  pub node_id : String
  pub desire_state : String
  pub current_state : String
  pub instance_manager_name : String
  pub ip : String

-- `port` is an integer in Longhorn's resource definition.
pub record Replica : Type 0 where
  pub metadata : Metadata
  pub volume_name : String
  pub node_id : String
  pub disk_id : String
  pub disk_path : String
  pub active : Bool
  pub desire_state : String
  pub healthy_at : String
  pub failed_at : String
  pub last_healthy_at : String
  pub last_failed_at : String
  pub current_state : String
  pub ip : String
  pub storage_ip : String
  pub port : ℕ

pub record LonghornNode : Type 0 where
  pub metadata : Metadata
  pub disk_uuids : List String

pub record Ticket : Type 0 where
  pub id : String
  pub kind : String
  pub node_id : String
  -- `statuses.get(ticket_id, {}).get("satisfied") is True`
  pub satisfied : Bool

-- An attachment that is absent is read as one without tickets; `exists` is its truth value.
pub record LonghornAttachment : Type 0 where
  pub exists : Bool
  pub tickets : List Ticket

pub record NativeAttachment : Type 0 where
  pub metadata : Metadata
  pub attacher : String
  pub source_pv_name : String
  pub node_name : String
  pub attached : Bool
  pub error_message : String

pub record PersistentVolume : Type 0 where
  pub metadata : Metadata
  pub csi_driver : String
  pub volume_handle : String

-- `metadata.get("deletionTimestamp")`
abbrev pub is_deleting : Metadata → Bool
is_deleting m = truthy m.deletion_timestamp

-- Instants count microseconds. `max(0.0, (now - created).total_seconds())`: subtraction stops at 0.
unfoldable pub age_of : ℕ → Option ℕ → Option ℕ
age_of now none = none
age_of now (some created) = some (now - created)

unfoldable pub object_age : IsoReader → ℕ → Metadata → Option ℕ
unfolding age_of parse_timestamp
object_age from_iso now m = age_of now (parse_timestamp from_iso m.creation_timestamp)

-- `controller_owner(obj) is not None`
unfoldable pub has_controller : Metadata → Bool
has_controller m = any (λ c. c) m.controllers

unfoldable pub pod_uses_claim : String → Pod → Bool
pod_uses_claim claim_name pod =
    any (λ c. elim c [ none ↦ false | some name ↦ name == claim_name ]) pod.claims

unfoldable pub ticket_is_active : String → LonghornAttachment → Bool
ticket_is_active target_node a =
    any (λ t. t.kind == "csi-attacher" && (t.node_id == target_node && not t.satisfied)) a.tickets

unfoldable pub csi_ticket_nodes : LonghornAttachment → List String
csi_ticket_nodes a =
    map (λ t. t.node_id) (filter (λ t. t.kind == "csi-attacher" && truthy t.node_id) a.tickets)

-- `disk_id in disk_ids.get(node_id, set())`: the last node of a name is the one in the dictionary.
unfoldable pub disk_ids_of : String → List LonghornNode → Option (List String)
disk_ids_of name [] = none
disk_ids_of name (node ∷ rest) = elim (disk_ids_of name rest) [
  | some later ↦ some later
  | none ↦
      if (truthy node.metadata.name && not (is_deleting node.metadata))
        && node.metadata.name == name
      then some (filter truthy node.disk_uuids)
      else none
]

unfoldable pub is_registered : String → String → List LonghornNode → Bool
unfolding disk_ids_of
is_registered node_id disk_id nodes = elim (disk_ids_of node_id nodes) [
  | none ↦ false
  | some ids ↦ contains disk_id ids
]

unfoldable pub replica_history_is_safe : IsoReader → Replica → Bool
unfolding parse_timestamp healthy_after
replica_history_is_safe from_iso r =
    healthy_after
      (parse_timestamp from_iso
        (if truthy r.last_healthy_at then r.last_healthy_at else r.healthy_at))
      (parse_timestamp from_iso r.last_failed_at)
