-- ===== src/Longhorn/Disks.antt =====
-- registered_disks, replica_history_is_safe and replica_is_safe: the replicas that may be counted
-- on when another directory of their volume is given up.
use text.Mathlib.Text.{starts_with}
use platform_gitops.Prelude.{
  ℕ, String, ◌==◌, Bool, true, false, not, ◌&&◌, ◌||◌, Option, none, some, List, [], ◌∷◌, ltb,
  if◌then◌else◌, any,
}
use platform_gitops.Longhorn.Kube.{LonghornNode, Disk, DiskStatus, Replica, truthy, get_text}
use platform_gitops.Longhorn.Names.{Parsed, parse_directory_name}

pub record RegisteredDisk : Type 0 where
  pub node_name : String
  pub disk_name : String
  pub disk_id : String
  pub disk_path : String

-- `status_disks.get(disk_name) or {}`
unfoldable pub disk_status_of : String → List DiskStatus → DiskStatus
disk_status_of name [] = record {
  status_name = name;
  disk_uuid = "";
  status_path = "";
  status_type = none;
}
disk_status_of name (s ∷ rest) = if s.status_name == name then s else disk_status_of name rest

unfoldable pub disk_is_usable : Disk → DiskStatus → String → Bool
unfolding get_text
disk_is_usable spec status disk_path =
    truthy status.disk_uuid
    && (truthy disk_path
        && (starts_with disk_path "/"
            && (get_text spec.spec_type "filesystem" == "filesystem"
                && (get_text status.status_type "filesystem" == "filesystem"
                    && (not spec.eviction_requested
                        && (not (truthy spec.spec_path)
                            || (not (truthy status.status_path)
                                || spec.spec_path == status.status_path)))))))

-- `result.setdefault(node_name, {})[disk_id] = …`
unfoldable pub put_disk : RegisteredDisk → List RegisteredDisk → List RegisteredDisk
put_disk d [] = d ∷ []
put_disk d (e ∷ rest) =
    if e.node_name == d.node_name && e.disk_id == d.disk_id then d ∷ rest else e ∷ put_disk d rest

unfoldable pub node_disks :
    String → List DiskStatus → List Disk → List RegisteredDisk → List RegisteredDisk
unfolding disk_status_of disk_is_usable put_disk
node_disks node_name statuses [] result = result
node_disks node_name statuses (spec ∷ rest) result =
    let status = disk_status_of spec.disk_name statuses in
    let disk_path = (if truthy spec.spec_path then spec.spec_path else status.status_path) in
    node_disks node_name statuses rest (
      if disk_is_usable spec status disk_path
      then put_disk
          (record {
            node_name = node_name;
            disk_name = spec.disk_name;
            disk_id = status.disk_uuid;
            disk_path = disk_path;
          })
          result
      else result)

unfoldable pub registered_disks_onto : List LonghornNode → List RegisteredDisk → List RegisteredDisk
unfolding node_disks
registered_disks_onto [] result = result
registered_disks_onto (node ∷ rest) result = registered_disks_onto rest (
    if not (truthy node.metadata.name) || truthy node.metadata.deletion_timestamp
    then result
    else node_disks node.metadata.name node.disk_status node.disks result)

-- The dictionary by node and disk identifier, as the list of its values.
unfoldable pub registered_disks : List LonghornNode → List RegisteredDisk
unfolding registered_disks_onto
registered_disks nodes = registered_disks_onto nodes []

-- `disk_id in disks_by_node.get(node_name, {})`
unfoldable pub is_registered : String → String → List RegisteredDisk → Bool
is_registered node_name disk_id = any (λ d. d.node_name == node_name && d.disk_id == disk_id)

-- `datetime.fromisoformat(value.replace("Z", "+00:00"))` as an instant, and `none` where it raises.
abbrev pub IsoReader : Type 0
IsoReader = String → Option ℕ

unfoldable pub parse_timestamp : IsoReader → String → Option ℕ
parse_timestamp from_iso value = if truthy value then from_iso value else none

unfoldable pub later_than : ℕ → Option ℕ → Bool
later_than healthy none = true
later_than healthy (some failed) = ltb failed healthy

unfoldable pub healthy_after : Option ℕ → Option ℕ → Bool
unfolding later_than
healthy_after none failed = false
healthy_after (some healthy) failed = later_than healthy failed

unfoldable pub replica_history_is_safe : IsoReader → Replica → Bool
unfolding parse_timestamp healthy_after
replica_history_is_safe from_iso replica =
    healthy_after
      (parse_timestamp from_iso
        (if truthy replica.last_healthy_at then replica.last_healthy_at else replica.healthy_at))
      (parse_timestamp from_iso replica.last_failed_at)

-- The directory is named after the volume, and is not in quarantine.
unfoldable pub names_volume : Option Parsed → String → Bool
names_volume none volume_name = false
names_volume (some parsed) volume_name = parsed.volume_name == volume_name && not parsed.tombstone

unfoldable pub replica_is_safe : IsoReader → List RegisteredDisk → Replica → Bool
unfolding replica_history_is_safe names_volume is_registered
replica_is_safe from_iso disks replica =
    not (truthy replica.metadata.deletion_timestamp)
    && (replica.active
        && (replica.desire_state == "stopped"
            && (not replica.eviction_requested
                && (not (truthy replica.failed_at)
                    && (replica_history_is_safe from_iso replica
                        && (truthy replica.node_id
                            && (is_registered replica.node_id replica.disk_id disks
                                && (names_volume (parse_directory_name replica.data_directory_name)
                                      replica.volume_name
                                    && (replica.current_state == "stopped"
                                        && not (truthy replica.instance_manager_name))))))))))
