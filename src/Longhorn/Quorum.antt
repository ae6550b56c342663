-- ===== src/Longhorn/Quorum.antt =====
-- What ready_manager_nodes proves of the nodes that it returns.
use platform_gitops.Prelude.{
  ◌*◌, ◌<◌, String, ◌==◌, ◌≡◌, ◌≢◌, ◌⊎◌, refl, sym, ◌∙◌, true, false, not, ◌&&◌, some, List, [],
  ◌∷◌, map, arith, length, any, filter, contains, IsDistinct, eq_iff, nat_eq, Mem, mem-cons_self,
  mem-cons_of_mem, mem-map_of_mem, mem-filter, mem_of_mem-filter, passes_of_mem-filter,
  ne_of_not_contained, Option-cases, inl, inr, Bool-cases, contains-same_members,
}
use platform_gitops.Longhorn.Kube.{LonghornNode, Pod, truthy, condition_status, condition_reason}
use platform_gitops.Longhorn.Managers.{
  Managers, ready_manager_nodes, judge_managers, group_managers, live_node_names, ready_groups,
  pod_is_ready,
}
use platform_gitops.Longhorn.ManagerGroups.{
  Groups, manages, contains-distinct, distinct-IsDistinct, group_managers-IsDistinct,
  ready_groups-IsDistinct, contains-ready_groups, group_managers-ready,
}

-- A node of the name that is not being deleted.
abbrev pub IsLiveNode : List LonghornNode → String → Type 0
IsLiveNode nodes k =
    (n : LonghornNode) × Mem n nodes
    × (n.metadata.name ≡ k)
    × (k ≢ "")
    × (n.metadata.deletion_timestamp ≡ "")

-- More than half of the live nodes are ready, each counted once, and each by its one manager; and a
-- node under pressure at most.
pub record IsQuorum (node_name : String) (local : LonghornNode) (pods : List Pod)
    (nodes : List LonghornNode) (m : Managers) : Type 0 where
  pub majority : length (live_node_names nodes) < 2 * length m.ready
  pub distinct_live : IsDistinct (live_node_names nodes)
  pub distinct_ready : IsDistinct m.ready
  pub live_only : (k : String) → contains k (live_node_names nodes) ≡ true → IsLiveNode nodes k
  pub all_live : (k : String) → IsLiveNode nodes k → contains k (live_node_names nodes) ≡ true
  pub among_live :
      (k : String) → contains k m.ready ≡ true → contains k (live_node_names nodes) ≡ true
  pub managed :
      (k : String)
      → contains k m.ready ≡ true
      → (p : Pod) × (filter (manages k) pods ≡ p ∷ []) × (pod_is_ready p ≡ true)
  pub pressed :
      (m.inactive_pressure_owners ≡ [])
      ⊎ ((m.inactive_pressure_owners ≡ node_name ∷ [])
          × (condition_status local.conditions "Ready" ≡ "False")
          × (condition_reason local.conditions "Ready" ≡ "KubernetesNodePressure"))

contains-map :
    {A : Type 0} (f : A → String) (xs : List A) (k : String)
    → contains k (map f xs) ≡ true
    → (x : A) × Mem x xs × (f x ≡ k)
contains-map f [] k h = absurd (ground (arith, h))
contains-map f (x ∷ xs) k h = elim (Bool-cases (k == f x)) [
  | inl here ↦ (x, mem-cons_self, sym ((eq_iff k (f x)).0 here))
  | inr there ↦
      let (y, m, e) = contains-map f xs k (ground (arith, h, there)) in (y, mem-cons_of_mem x m, e)
]

contains_of_mem : (k : String) (ks : List String) → Mem k ks → contains k ks ≡ true
contains_of_mem k ks m = elim (Bool-cases (contains k ks)) [
  | inl held ↦ held
  | inr missed ↦ absurd (ne_of_not_contained k ks k missed m refl)
]

module _ (nodes : List LonghornNode) where
  abbrev live_nodes : List LonghornNode
  live_nodes =
      filter (λ n. truthy n.metadata.name && not (truthy n.metadata.deletion_timestamp)) nodes

  abbrev names_of : List String
  names_of = map (λ n. n.metadata.name) live_nodes

  live_node_names-IsDistinct : IsDistinct (live_node_names nodes)
  unfolding live_node_names
  live_node_names-IsDistinct = distinct-IsDistinct names_of

  live_node_names-IsLiveNode :
      (k : String) → contains k (live_node_names nodes) ≡ true → IsLiveNode nodes k
  unfolding live_node_names
  live_node_names-IsLiveNode k h =
      let (n, m, e) =
        contains-map (λ n. n.metadata.name) live_nodes k (sym (contains-distinct k names_of) ∙ h) in
      let passes = passes_of_mem-filter _ nodes n m in
      (
        n,
        mem_of_mem-filter _ nodes n m,
        e,
        (λ empty. ground (arith, passes, (eq_iff n.metadata.name "").1 (e ∙ empty))),
        ground (arith, passes, eq_iff n.metadata.deletion_timestamp ""),
      )

  live_node_names-all :
      (k : String) → IsLiveNode nodes k → contains k (live_node_names nodes) ≡ true
  unfolding live_node_names
  live_node_names-all k (n, m, e, named, live) =
      contains-distinct k names_of
      ∙ rw (← e) (
          contains_of_mem n.metadata.name _ (
            mem-map_of_mem (λ n. n.metadata.name)
              (mem-filter _ nodes n m (
                ground (
                  arith,
                  (λ (empty : n.metadata.name ≡ ""). named (sym e ∙ empty)),
                  eq_iff n.metadata.name "",
                  (eq_iff n.metadata.deletion_timestamp "").1 live,
                )))))

module _ (node_name : String) (local : LonghornNode) (names : List String)
    (groups : List (String × List Pod))
    (found : (judge_managers node_name local names groups).ready ≢ []) where
  judge_managers-majority :
      length names < 2 * length (judge_managers node_name local names groups).ready
  unfolding judge_managers
  judge_managers-majority = ground arith

  judge_managers-subset :
      (k : String)
      → contains k (judge_managers node_name local names groups).ready ≡ true
      → contains k names ≡ true
  unfolding judge_managers
  judge_managers-subset k h =
      ground (
        arith,
        contains-ready_groups groups k,
        contains-same_members (map (λ g. g.0) groups) names k,
      )

  judge_managers-pressed :
      let m = judge_managers node_name local names groups in
      (m.inactive_pressure_owners ≡ [])
      ⊎ ((m.inactive_pressure_owners ≡ node_name ∷ [])
          × (condition_status local.conditions "Ready" ≡ "False")
          × (condition_reason local.conditions "Ready" ≡ "KubernetesNodePressure"))
  unfolding judge_managers
  judge_managers-pressed = ground (
    arith,
    eq_iff (condition_status local.conditions "Ready") "False",
    eq_iff (condition_reason local.conditions "Ready") "KubernetesNodePressure",
  )

  judge_managers-single : any (λ g. not (nat_eq (length g.1) 1)) groups ≡ false
  unfolding judge_managers
  judge_managers-single = ground arith

  judge_managers-ready : (judge_managers node_name local names groups).ready ≡ ready_groups groups
  unfolding judge_managers
  judge_managers-ready = ground arith

module _ (node_name : String) (local : LonghornNode) (pods : List Pod) (nodes : List LonghornNode)
    (groups : Groups) where
  judged-IsQuorum :
      group_managers (live_node_names nodes) pods [] ≡ some groups
      → (judge_managers node_name local (live_node_names nodes) groups).ready ≢ []
      → IsQuorum node_name local pods nodes
          (judge_managers node_name local (live_node_names nodes) groups)
  judged-IsQuorum e judged =
      let names = live_node_names nodes in
      let same = judge_managers-ready node_name local names groups judged in
      record {
        majority = judge_managers-majority node_name local names groups judged;
        distinct_live = live_node_names-IsDistinct nodes;
        distinct_ready =
            rw same (
              ready_groups-IsDistinct groups (group_managers-IsDistinct names pods [] groups e tt));
        live_only = live_node_names-IsLiveNode nodes;
        all_live = live_node_names-all nodes;
        among_live = judge_managers-subset node_name local names groups judged;
        managed = λ k c.
            group_managers-ready k names pods groups e
              (judge_managers-single node_name local names groups judged) (rw same at c);
        pressed = judge_managers-pressed node_name local names groups judged;
      }

-- Where ready_manager_nodes returns any node, it returns, each once, more than half of the nodes that
-- are not being deleted, all of them live, each with one manager that is not being deleted, which is
-- ready; and it counts the local node's silent manager only under node pressure.
pub ready_manager_nodes-IsQuorum :
    (node_name : String) (local : LonghornNode) (pods : List Pod) (nodes : List LonghornNode)
    → (ready_manager_nodes node_name local pods nodes).ready ≢ []
    → IsQuorum node_name local pods nodes (ready_manager_nodes node_name local pods nodes)
unfolding ready_manager_nodes
ready_manager_nodes-IsQuorum node_name local pods nodes h =
    let names = live_node_names nodes in
    elim (Bool-cases (contains node_name names)) [
      | inr absent ↦ absurd (ground arith)
      | inl live ↦ elim (Option-cases (group_managers names pods [])) [
        | inl stray ↦ absurd (ground arith)
        | inr (groups, e) ↦
            let judged : (judge_managers node_name local names groups).ready ≢ [] =
              rw (live, e, ready_manager_nodes) at h in
            rw (live, e, ready_manager_nodes)
              (judged-IsQuorum node_name local pods nodes groups e judged)
      ]
    ]
