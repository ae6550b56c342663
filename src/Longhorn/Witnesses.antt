-- ===== src/Longhorn/Witnesses.antt =====
-- The theorems about the reclaim script at the cluster of `Examples`, and a removal.
use platform_gitops.Prelude.{◌≤◌, ◌≡◌, refl, true, false, some, [], ◌∷◌, arith, strip_suffix}
use platform_gitops.Prelude.Result.{ok}
use platform_gitops.Longhorn.Kube.{
  condition_entry, condition_status, condition_reason, status_of, integer, get_text,
}
use platform_gitops.Longhorn.Names.{
  parse_directory_name, parse_logical, starts_with_dot, full_match, volume_directory, fits,
  tombstone_name,
}
use platform_gitops.Longhorn.RoundTrip.{parsed, parse-tombstone_name}
use platform_gitops.Longhorn.Metrics.{
  Stat, Entries, dir, regular, nil, cons, directory_metrics_within, walk, list_entries, add_entry,
  add_stat,
}
use platform_gitops.Longhorn.Metrics.Totals.{
  bytes_in, entries_in, plain_in, newest_in, directory_metrics_within_complete,
  directory_metrics_within_sound,
}
use platform_gitops.Longhorn.Managers.{
  ready_manager_nodes, group_managers, append_to, judge_managers, live_node_names, ready_groups,
  first_passes, manager_passes, pod_is_ready, pod_has_running_containers, is_running, is_ready,
}
use platform_gitops.Longhorn.Quorum.{IsQuorum, ready_manager_nodes-IsQuorum}
use platform_gitops.Longhorn.Disks.{
  registered_disks, is_registered, replica_is_safe, replica_history_is_safe, parse_timestamp,
  names_volume,
}
use platform_gitops.Longhorn.Candidate.{
  pod_claim_reference_is_quiescent, volume_is_attached, engine_is_active, pv_is_unbound,
  pvc_is_unbound, pod_uses_claim,
}
use platform_gitops.Longhorn.Evaluate.{
  evaluate_directory, check_directory, check_volume, check_replicas, check_local, check_engines,
  check_claim, current_replicas, is_indexed,
}
use platform_gitops.Longhorn.Needs.{IsReclaimable}
use platform_gitops.Longhorn.Reclaimable.{evaluate_directory-IsReclaimable}
use platform_gitops.Longhorn.Select.{
  select_candidate, select_local, select_on_node, evaluate_all, choose, annotation,
}
use platform_gitops.Longhorn.Selected.{IsSelected, select_candidate-IsSelected}
use platform_gitops.Longhorn.Examples

parse-tombstone_name_example :
    (parse_directory_name Examples.stale_name ≡ some (parsed Examples.stale_name false))
    × (parse_directory_name (tombstone_name Examples.stale_name)
        ≡ some (parsed Examples.stale_name true))
unfolding full_match volume_directory fits
parse-tombstone_name_example = parse-tombstone_name Examples.stale_name refl

ready_manager_nodes-IsQuorum_example :
    IsQuorum "node-1"
      (Examples.longhorn_node "node-1" "disk-1")
      Examples.managers
      Examples.cluster.nodes
      (ready_manager_nodes "node-1"
        (Examples.longhorn_node "node-1" "disk-1")
        Examples.managers
        Examples.cluster.nodes)
unfolding ready_manager_nodes group_managers append_to judge_managers live_node_names ready_groups
    first_passes pod_is_ready pod_has_running_containers is_running is_ready status_of
    condition_status condition_reason condition_entry get_text manager_passes
ready_manager_nodes-IsQuorum_example =
    ready_manager_nodes-IsQuorum "node-1" (Examples.longhorn_node "node-1" "disk-1")
      Examples.managers Examples.cluster.nodes (λ e. cc)

evaluate_directory-IsReclaimable_example :
    (Examples.candidate.directory ≡ Examples.directory Examples.stale_name 2)
    × IsReclaimable Examples.reads_all Examples.cluster 3600 1073741824 Examples.candidate
unfolding evaluate_directory check_directory check_volume check_replicas check_local check_engines
    check_claim current_replicas is_indexed replica_is_safe registered_disks is_registered
    replica_history_is_safe parse_timestamp parse_directory_name parse_logical starts_with_dot
    full_match volume_directory fits strip_suffix names_volume volume_is_attached engine_is_active
    pv_is_unbound pvc_is_unbound pod_claim_reference_is_quiescent pod_uses_claim integer get_text
evaluate_directory-IsReclaimable_example =
    evaluate_directory-IsReclaimable Examples.reads_all Examples.cluster ("node-2" ∷ []) [] 3600
      1073741824 (Examples.directory Examples.stale_name 2) Examples.candidate refl

select_candidate-IsSelected_example :
    IsSelected Examples.reads_all Examples.cluster Examples.kube_node Examples.managers
      Examples.settings 3600 1073741824 Examples.candidate
unfolding select_candidate select_local select_on_node evaluate_all choose annotation
    ready_manager_nodes group_managers append_to judge_managers live_node_names ready_groups
    first_passes pod_is_ready pod_has_running_containers is_running is_ready status_of
    condition_status condition_reason condition_entry get_text manager_passes evaluate_directory
    check_directory check_volume check_replicas check_local check_engines check_claim
    current_replicas is_indexed replica_is_safe registered_disks is_registered
    replica_history_is_safe parse_timestamp parse_directory_name parse_logical starts_with_dot
    full_match volume_directory fits strip_suffix names_volume volume_is_attached engine_is_active
    pv_is_unbound pvc_is_unbound pod_claim_reference_is_quiescent pod_uses_claim integer
select_candidate-IsSelected_example =
    select_candidate-IsSelected Examples.reads_all Examples.cluster Examples.kube_node
      Examples.managers Examples.settings 3600 1073741824 Examples.candidate refl

abbrev stat : Stat
stat = record { allocated = 4096; mtime_ns = 5; device = 1; inode = 2 }

abbrev file : Stat
file = record { allocated = 512; mtime_ns = 9; device = 1; inode = 3 }

abbrev tree : Entries
tree =
    cons "volume.meta" (regular file) (cons "logs" (dir stat (cons "log" (regular file) nil)) nil)

directory_metrics_within_complete_example :
    directory_metrics_within 3 (dir stat tree)
    ≡ ok (record { allocated = 9216; newest_mtime_ns = 9; device = 1; inode = 2 })
unfolding bytes_in entries_in plain_in newest_in
directory_metrics_within_complete_example =
    directory_metrics_within_complete 3 stat tree refl (omega arith)

directory_metrics_within_sound_example : (plain_in tree ≡ true) × (entries_in tree ≤ 3)
unfolding directory_metrics_within walk list_entries add_entry add_stat
directory_metrics_within_sound_example =
    directory_metrics_within_sound 3 stat tree
      (record { allocated = 9216; newest_mtime_ns = 9; device = 1; inode = 2 }) refl
