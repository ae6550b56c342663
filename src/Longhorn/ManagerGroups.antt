-- ===== src/Longhorn/ManagerGroups.antt =====
-- The groups that ready_manager_nodes makes of the managers: one for each node, with all its pods.
use mathlib.Core.List.{append-nil, append_assoc}
use platform_gitops.Prelude.{
  String, ◌==◌, ◌≡◌, refl, sym, ap, ◌∙◌, Bool, true, false, not, ◌&&◌, ◌||◌, List, [], ◌∷◌, ◌++◌,
  map, arith, length, any, filter, contains, distinct, IsDistinct, eq_iff, some, nat_eq, Bool-cases,
  inl, inr, if◌then◌else◌,
}
use platform_gitops.Longhorn.Kube.{Pod, truthy}
use platform_gitops.Longhorn.Managers.{
  append_to, group_managers, ready_groups, first_passes, pod_is_ready,
}

abbrev pub Groups : Type 0
Groups = List (String × List Pod)

abbrev pub keys : Groups → List String
keys groups = map (λ g. g.0) groups

-- The pods of the first group of a node.
unfoldable pub pods_of : String → Groups → List Pod
pods_of k [] = []
pods_of k ((key, pods) ∷ rest) = if key == k then pods else pods_of k rest

-- A manager that is not being deleted, of a node.
abbrev pub manages : String → Pod → Bool
manages k p = not (truthy p.metadata.deletion_timestamp) && p.node_name == k

pub contains-distinct : (k : String) (ks : List String) → contains k (distinct ks) ≡ contains k ks
contains-distinct k [] = refl
contains-distinct k (j ∷ ks) = elim (Bool-cases (k == j)) [
  | inl same ↦ ground (arith, contains-distinct k ks, ap (λ i. contains i ks) ((eq_iff k j).0 same))
  | inr apart ↦ ground (arith, contains-distinct k ks)
]

pub distinct-IsDistinct : (ks : List String) → IsDistinct (distinct ks)
distinct-IsDistinct [] = tt
distinct-IsDistinct (k ∷ ks) = ground (arith, distinct-IsDistinct ks, contains-distinct k ks)

keys-append_to :
    (k node : String) (pod : Pod) (groups : Groups)
    → contains k (keys (append_to node pod groups)) ≡ (k == node || contains k (keys groups))
unfolding append_to
keys-append_to k node pod [] = ground arith
keys-append_to k node pod ((key, pods) ∷ rest) =
    ground (arith, keys-append_to k node pod rest, eq_iff key node)

append_to-IsDistinct :
    (node : String) (pod : Pod) (groups : Groups)
    → IsDistinct (keys groups)
    → IsDistinct (keys (append_to node pod groups))
unfolding append_to
append_to-IsDistinct node pod [] h = (refl, tt)
append_to-IsDistinct node pod ((key, pods) ∷ rest) h = elim (Bool-cases (key == node)) [
  | inl here ↦ rw here h
  | inr there ↦ rw there (
    ground (arith, keys-append_to key node pod rest, h.0),
    append_to-IsDistinct node pod rest h.1,
  )
]

abbrev one_if : Bool → Pod → List Pod
one_if true pod = pod ∷ []
one_if false pod = []

pods_of-append_to :
    (k node : String) (pod : Pod) (groups : Groups)
    → pods_of k (append_to node pod groups) ≡ pods_of k groups ++ one_if (node == k) pod
unfolding append_to pods_of
pods_of-append_to k node pod [] = ground arith
pods_of-append_to k node pod ((key, pods) ∷ rest) = ground (
  arith,
  pods_of-append_to k node pod rest,
  eq_iff key node,
  eq_iff key k,
  eq_iff node k,
  append-nil pods,
  append-nil (pods_of k rest),
)

-- What the grouping of the managers gives.
pub group_managers-IsDistinct :
    (names : List String) (pods : List Pod) (groups gs : Groups)
    → group_managers names pods groups ≡ some gs
    → IsDistinct (keys groups)
    → IsDistinct (keys gs)
unfolding group_managers
group_managers-IsDistinct names [] groups gs e h = ground (arith, e)
group_managers-IsDistinct names (pod ∷ pods) groups gs e h =
    elim (Bool-cases (truthy pod.metadata.deletion_timestamp)) [
      | inl leaving ↦ group_managers-IsDistinct names pods groups gs (ground (arith, e)) h
      | inr stays ↦
          group_managers-IsDistinct names pods (append_to pod.node_name pod groups) gs
            (ground (arith, e)) (append_to-IsDistinct pod.node_name pod groups h)
    ]

pub group_managers-pods_of :
    (k : String) (names : List String) (pods : List Pod) (groups gs : Groups)
    → group_managers names pods groups ≡ some gs
    → pods_of k gs ≡ pods_of k groups ++ filter (manages k) pods
unfolding group_managers
group_managers-pods_of k names [] groups gs e = ground (arith, e, append-nil (pods_of k groups))
group_managers-pods_of k names (pod ∷ pods) groups gs e =
    elim (Bool-cases (truthy pod.metadata.deletion_timestamp)) [
      | inl leaving ↦
          ground (arith, group_managers-pods_of k names pods groups gs (ground (arith, e)), leaving)
      | inr stays ↦
          group_managers-pods_of k names pods (append_to pod.node_name pod groups) gs
            (ground (arith, e))
          ∙ (ap (λ ps. ps ++ filter (manages k) pods) (pods_of-append_to k pod.node_name pod groups)
              ∙ (append_assoc (pods_of k groups) (one_if (pod.node_name == k) pod)
                    (filter (manages k) pods)
                  ∙ ap (λ ps. pods_of k groups ++ ps) (ground (arith, stays))))
    ]

pub contains-ready_groups :
    (groups : Groups) (k : String)
    → contains k (ready_groups groups) ≡ true
    → contains k (keys groups) ≡ true
unfolding ready_groups
contains-ready_groups [] k h = h
contains-ready_groups ((key, pods) ∷ rest) k h = ground (arith, contains-ready_groups rest k)

absent_ready :
    (groups : Groups) (k : String)
    → contains k (keys groups) ≡ false
    → contains k (ready_groups groups) ≡ false
absent_ready groups k h = ground (arith, contains-ready_groups groups k)

pub ready_groups-IsDistinct :
    (groups : Groups) → IsDistinct (keys groups) → IsDistinct (ready_groups groups)
unfolding ready_groups
ready_groups-IsDistinct [] h = tt
ready_groups-IsDistinct ((key, pods) ∷ rest) h =
    elim (Bool-cases (first_passes pod_is_ready pods)) [
      | inl passes ↦ rw passes (absent_ready rest key h.0, ready_groups-IsDistinct rest h.1)
      | inr fails ↦ rw fails (ready_groups-IsDistinct rest h.1)
    ]

-- The first pod of a node that is counted as ready is ready.
ready_groups-first :
    (groups : Groups) (k : String)
    → IsDistinct (keys groups)
    → contains k (ready_groups groups) ≡ true
    → first_passes pod_is_ready (pods_of k groups) ≡ true
unfolding ready_groups pods_of
ready_groups-first [] k h c = absurd (ground (arith, c))
ready_groups-first ((key, pods) ∷ rest) k h c = ground (
  arith,
  h.0,
  c,
  eq_iff key k,
  eq_iff k key,
  contains-ready_groups rest k,
  ready_groups-first rest k h.1,
)

single_pods :
    (groups : Groups) (k : String)
    → any (λ g. not (nat_eq (length g.1) 1)) groups ≡ false
    → contains k (keys groups) ≡ true
    → length (pods_of k groups) ≡ 1
unfolding pods_of
single_pods [] k h c = absurd (ground (arith, c))
single_pods ((key, pods) ∷ rest) k h c =
    ground (arith, h, c, eq_iff key k, eq_iff k key, single_pods rest k)

only_pod :
    (ps : List Pod)
    → length ps ≡ 1
    → first_passes pod_is_ready ps ≡ true
    → (p : Pod) × (ps ≡ p ∷ []) × (pod_is_ready p ≡ true)
unfolding first_passes
only_pod [] l h = absurd (omega (arith, l))
only_pod (p ∷ []) l h = (p, refl, h)
only_pod (p ∷ q ∷ ps) l h = absurd (omega (arith, l))

-- A node that is counted as ready has one manager that is not being deleted, and it is ready.
pub group_managers-ready :
    (k : String) (names : List String) (pods : List Pod) (gs : Groups)
    → group_managers names pods [] ≡ some gs
    → any (λ g. not (nat_eq (length g.1) 1)) gs ≡ false
    → contains k (ready_groups gs) ≡ true
    → (p : Pod) × (filter (manages k) pods ≡ p ∷ []) × (pod_is_ready p ≡ true)
unfolding pods_of
group_managers-ready k names pods gs e single c =
    let grouped : pods_of k gs ≡ filter (manages k) pods =
      group_managers-pods_of k names pods [] gs e in
    only_pod (filter (manages k) pods)
      (ap length (sym grouped) ∙ single_pods gs k single (contains-ready_groups gs k c))
      (ap (first_passes pod_is_ready) (sym grouped)
        ∙ ready_groups-first gs k (group_managers-IsDistinct names pods [] gs e tt) c)
