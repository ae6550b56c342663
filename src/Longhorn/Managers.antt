-- ===== src/Longhorn/Managers.antt =====
-- ready_manager_nodes: the nodes whose longhorn-manager may own a volume.
use platform_gitops.Prelude.{
  ◌+◌, ◌/◌, String, ◌==◌, Bool, false, not, ◌&&◌, ◌||◌, Option, none, some, List, [], ◌∷◌, ◌++◌,
  map, ltb, nat_eq, if◌then◌else◌, length, all, any, filter, contains, distinct, same_members,
}
use platform_gitops.Longhorn.Kube.{
  LonghornNode, Pod, ContainerStatus, truthy, condition_status, condition_reason, status_of,
}

pub data ManagerReason : Type 0 where
  topology_not_safe control_plane_quorum_unavailable node_ready_state_not_observed
        unready_not_caused_by_kubernetes_pressure control_plane_safe :
      ManagerReason

pub record Managers : Type 0 where
  pub ready : List String
  pub inactive_pressure_owners : List String
  pub reason : ManagerReason

unfoldable pub is_running : Option ContainerStatus → Bool
is_running none = false
is_running (some s) = s.running

unfoldable pub is_ready : Option ContainerStatus → Bool
is_ready none = false
is_ready (some s) = s.ready

unfoldable pub pod_has_running_containers : Pod → Bool
unfolding is_running
pod_has_running_containers pod =
    if truthy pod.metadata.deletion_timestamp
    then false
    else if not (pod.phase == "Running")
    then false
    else not (nat_eq (length pod.containers) 0)
      && (nat_eq (length (distinct (map (λ s. s.name) pod.container_statuses)))
            (length pod.containers)
          && all (λ c. is_running (status_of c pod.container_statuses)) pod.containers)

unfoldable pub pod_is_ready : Pod → Bool
unfolding is_ready
pod_is_ready pod =
    if not (pod_has_running_containers pod)
    then false
    else all (λ c. is_ready (status_of c pod.container_statuses)) pod.containers

-- The names of the Longhorn nodes that are not being deleted.
unfoldable pub live_node_names : List LonghornNode → List String
live_node_names nodes = distinct (
    map (λ n. n.metadata.name)
      (filter (λ n. truthy n.metadata.name && not (truthy n.metadata.deletion_timestamp)) nodes))

-- `groups.setdefault(node, []).append(pod)`
unfoldable pub append_to : String → Pod → List (String × List Pod) → List (String × List Pod)
append_to node pod [] = (node, pod ∷ []) ∷ []
append_to node pod ((key, pods) ∷ rest) =
    if key == node then (key, pods ++ pod ∷ []) ∷ rest else (key, pods) ∷ append_to node pod rest

-- The managers by node; `none` where a manager runs on no live Longhorn node.
unfoldable pub group_managers :
    List String → List Pod → List (String × List Pod) → Option (List (String × List Pod))
unfolding append_to
group_managers names [] groups = some groups
group_managers names (pod ∷ pods) groups =
    let next =
      (if truthy pod.metadata.deletion_timestamp
        then groups
        else append_to pod.node_name pod groups) in
    let rest = group_managers names pods next in
    if truthy pod.metadata.deletion_timestamp
    then rest
    else if not (truthy pod.node_name) || not (contains pod.node_name names)
    then none
    else rest

abbrev pub refused : ManagerReason → Managers
refused reason = record { ready = []; inactive_pressure_owners = []; reason = reason }

-- A test of `pods[0]`.
unfoldable pub first_passes : (Pod → Bool) → List Pod → Bool
first_passes p [] = false
first_passes p (pod ∷ rest) = p pod

-- `managers_by_node[node][0]` passes a test.
unfoldable pub manager_passes : (Pod → Bool) → String → List (String × List Pod) → Bool
unfolding first_passes
manager_passes p node [] = false
manager_passes p node ((key, pods) ∷ rest) =
    if key == node then first_passes p pods else manager_passes p node rest

unfoldable pub ready_groups : List (String × List Pod) → List String
unfolding first_passes
ready_groups groups = map (λ g. g.0) (filter (λ g. first_passes pod_is_ready g.1) groups)

-- The part of the function behind the grouping of the managers.
unfoldable pub judge_managers :
    String → LonghornNode → List String → List (String × List Pod) → Managers
judge_managers node_name local names groups =
    let ready_nodes = ready_groups groups in
    let ready = condition_status local.conditions "Ready" in
    let reason = condition_reason local.conditions "Ready" in
    let pressed = ready == "False" && reason == "KubernetesNodePressure" in
    if not (same_members (map (λ g. g.0) groups) names)
      || any (λ g. not (nat_eq (length g.1) 1)) groups
    then refused topology_not_safe
    else if ltb (length ready_nodes) (length names / 2 + 1)
    then refused control_plane_quorum_unavailable
    else if not (ready == "True" || ready == "False")
    then refused node_ready_state_not_observed
    else if ready == "False" && not (reason == "KubernetesNodePressure")
    then refused unready_not_caused_by_kubernetes_pressure
    else if not (contains node_name ready_nodes) && not pressed
    then refused unready_not_caused_by_kubernetes_pressure
    else record {
      ready = ready_nodes;
      inactive_pressure_owners =
          if pressed && not (manager_passes pod_has_running_containers node_name groups)
          then node_name ∷ []
          else [];
      reason = control_plane_safe;
    }

unfoldable pub ready_manager_nodes : String → LonghornNode → List Pod → List LonghornNode → Managers
ready_manager_nodes node_name local manager_pods nodes =
    let names = live_node_names nodes in
    if not (contains node_name names)
    then refused topology_not_safe
    else (elim (group_managers names manager_pods []) [
      | none ↦ refused topology_not_safe
      | some groups ↦ judge_managers node_name local names groups
    ])
