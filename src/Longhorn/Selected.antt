-- ===== src/Longhorn/Selected.antt =====
-- What select_candidate guarantees of the candidate that it selects.
use mathlib.Core.Logic.Or
use platform_gitops.Prelude.{
  ℕ, ◌≤◌, max, ◌≡◌, ◌≢◌, refl, true, List, [], ◌∷◌, Mem, mem-cons, mem-cons_self, mem-cons_of_mem,
  Mem-prop, arith, filter, contains, eq_iff, inl, inr, ap, Mem-elim,
}
use platform_gitops.Longhorn.Kube.{KubeNode, LonghornNode, Pod, condition_status, integer}
use platform_gitops.Longhorn.Managers.{Managers, ready_manager_nodes}
use platform_gitops.Longhorn.Quorum.{IsQuorum, ready_manager_nodes-IsQuorum}
use platform_gitops.Longhorn.Disks.{IsoReader}
use platform_gitops.Longhorn.Candidate.{
  ReplicaDirectory, ReclaimCandidate, ReclaimCandidate-set, Cluster, Reason, Check, pass, is_live,
}
use platform_gitops.Longhorn.Evaluate.{evaluate_directory}
use platform_gitops.Longhorn.Inversion.{Check-cases}
use platform_gitops.Longhorn.Needs.{IsReclaimable}
use platform_gitops.Longhorn.Reclaimable.{evaluate_directory-IsReclaimable}
use platform_gitops.Longhorn.Select.{
  Settings, selected, select_candidate, select_local, select_on_node, choose, evaluate_all,
}

module _ (evaluate : ReplicaDirectory → Check ReclaimCandidate) where
  -- Each candidate comes from a directory.
  eligible-source :
      (ds : List ReplicaDirectory) (x : ReclaimCandidate) (rest : List ReclaimCandidate)
      → (evaluate_all evaluate ds).0 ≡ x ∷ rest
      → (d : ReplicaDirectory) × Mem d ds × (evaluate d ≡ pass x)
  unfolding evaluate_all
  eligible-source [] x rest h = cc
  eligible-source (d ∷ ds) x rest h = elim (Check-cases (evaluate d)) [
    | inl (y, e) ↦ (d, mem-cons_self, ground arith)
    | inr (r, e) ↦
        let (f, m, p) = eligible-source ds x rest (ground arith) in (f, mem-cons_of_mem d m, p)
  ]

  -- Each directory that passes gives a candidate.
  eligible-complete :
      (ds : List ReplicaDirectory) (d : ReplicaDirectory) (y : ReclaimCandidate)
      → Mem d ds
      → evaluate d ≡ pass y
      → Mem y (evaluate_all evaluate ds).0
  unfolding evaluate_all
  eligible-complete [] d y m h = Mem-elim m
  eligible-complete (e ∷ ds) d y m h = elim (Check-cases (evaluate e)) [
    | inl (z, q) ↦
        rw (q, evaluate_all)
          (Or.elim Mem-prop (mem-cons.0 m)
            (λ same. let first : y ≡ z = cc (ap evaluate same) in rw first mem-cons_self)
            (λ later. mem-cons_of_mem z (eligible-complete ds d y later h)))
    | inr (r, q) ↦
        rw (q, evaluate_all)
          (Or.elim Mem-prop (mem-cons.0 m) (λ same. absurd (cc (ap evaluate same)))
            (λ later. eligible-complete ds d y later h))
  ]

the_one : (y x : ReclaimCandidate) → Mem y (x ∷ []) → y ≡ x
the_one y x m = Or.elim (ReclaimCandidate-set y x) (mem-cons.0 m) (λ e. e) (λ r. Mem-elim r)

choose-selected :
    (xs : List ReclaimCandidate) (reasons : List Reason) (x : ReclaimCandidate)
    → choose xs reasons ≡ selected x
    → xs ≡ x ∷ []
unfolding choose
choose-selected [] reasons x h = cc
choose-selected (y ∷ []) reasons x h = cc
choose-selected (y ∷ z ∷ rest) reasons x h = cc

-- The node that is named once among the live ones, and passed the tests of the node.
select_local-selected :
    (from_iso : IsoReader) (c : Cluster) (locals : List LonghornNode) (pods : List Pod)
    (s : Settings) (age bytes : ℕ) (x : ReclaimCandidate)
    → select_local from_iso c locals pods s age bytes ≡ selected x
    → (local : LonghornNode) × (locals ≡ local ∷ [])
      × (select_on_node from_iso c local pods s age bytes ≡ selected x)
unfolding select_local
select_local-selected from_iso c [] pods s age bytes x h = cc
select_local-selected from_iso c (l ∷ []) pods s age bytes x h = (l, refl, ground arith)
select_local-selected from_iso c (l ∷ k ∷ rest) pods s age bytes x h = cc

module _ (from_iso : IsoReader) (c : Cluster) (local : LonghornNode) (pods : List Pod)
    (s : Settings) (age bytes : ℕ) (x : ReclaimCandidate)
    (h : select_on_node from_iso c local pods s age bytes ≡ selected x) where
  abbrev managers : Managers
  managers = ready_manager_nodes c.node_name local pods c.nodes

  abbrev evaluation : ReplicaDirectory → Check ReclaimCandidate
  evaluation =
      evaluate_directory from_iso c managers.ready managers.inactive_pressure_owners
        (max age (integer s.grace_period 0)) bytes

  policy :
      (managers.ready ≢ [])
      × (contains "replica-data" s.deletion_modes ≡ true)
      × (300 ≤ integer s.grace_period 0)
      × ((evaluate_all evaluation c.directories).0 ≡ x ∷ [])
  unfolding select_on_node
  policy = ground (
    arith,
    choose-selected (evaluate_all evaluation c.directories).0
        (evaluate_all evaluation c.directories).1 x,
  )

-- What holds of the node, the managers, the policy and the directories when `x` is selected.
pub record IsSelected (from_iso : IsoReader) (c : Cluster) (kube_node : KubeNode) (pods : List Pod)
    (s : Settings) (age bytes : ℕ) (x : ReclaimCandidate) : Type 0 where
  pub local : LonghornNode
  pub node_ready : condition_status kube_node.conditions "Ready" ≡ "True"
  pub under_pressure : condition_status kube_node.conditions "DiskPressure" ≡ "True"
  pub only_local : filter (λ n. is_live c.node_name n.metadata) c.nodes ≡ local ∷ []
  pub quorum :
      IsQuorum c.node_name local pods c.nodes (ready_manager_nodes c.node_name local pods c.nodes)
  pub orphan_policy : contains "replica-data" s.deletion_modes ≡ true
  pub listed : Mem x.directory c.directories
  pub reclaimable : IsReclaimable from_iso c (max age (integer s.grace_period 0)) bytes x
  pub unique :
      (d : ReplicaDirectory) (y : ReclaimCandidate)
      → Mem d c.directories
      → evaluate_directory from_iso c
          (ready_manager_nodes c.node_name local pods c.nodes).ready
          (ready_manager_nodes c.node_name local pods c.nodes).inactive_pressure_owners
          (max age (integer s.grace_period 0))
          bytes
          d
        ≡ pass y
      → y ≡ x

module _ (from_iso : IsoReader) (c : Cluster) (kube_node : KubeNode) (pods : List Pod)
    (s : Settings) (age bytes : ℕ) (x : ReclaimCandidate) where
  node_tests :
      select_candidate from_iso c kube_node pods s age bytes ≡ selected x
      → (condition_status kube_node.conditions "Ready" ≡ "True")
        × (condition_status kube_node.conditions "DiskPressure" ≡ "True")
        × (select_local from_iso c
              (filter (λ n. is_live c.node_name n.metadata) c.nodes)
              pods
              s
              age
              bytes
            ≡ selected x)
  unfolding select_candidate
  node_tests h = ground (
    arith,
    eq_iff (condition_status kube_node.conditions "Ready") "True",
    eq_iff (condition_status kube_node.conditions "DiskPressure") "True",
  )

  -- A selected candidate is reclaimable at the longer of the two ages, is the only directory that
  -- passes, and is selected only on a ready node under disk pressure whose managers have a quorum
  -- and whose orphan policy covers replica data.
  pub select_candidate-IsSelected :
      select_candidate from_iso c kube_node pods s age bytes ≡ selected x
      → IsSelected from_iso c kube_node pods s age bytes x
  select_candidate-IsSelected h =
      let (ready, pressure, h₁) = node_tests h in
      let (local, only, h₂) = select_local-selected from_iso c _ pods s age bytes x h₁ in
      let (found, modes, _, chosen) = policy from_iso c local pods s age bytes x h₂ in
      let evaluate = evaluation from_iso c local pods s age bytes x h₂ in
      let (d, m, passes) = eligible-source evaluate c.directories x [] chosen in
      let (same, reclaimable) =
        evaluate_directory-IsReclaimable from_iso c _ _ _ bytes d x passes in
      record {
        local = local;
        node_ready = ready;
        under_pressure = pressure;
        only_local = only;
        quorum = ready_manager_nodes-IsQuorum c.node_name local pods c.nodes found;
        orphan_policy = modes;
        listed = rw same m;
        reclaimable = reclaimable;
        unique = λ e y listed q.
            the_one y x (rw chosen at (eligible-complete evaluate c.directories e y listed q));
      }
