-- ===== src/Longhorn/Reclaimable.antt =====
-- What a candidate of evaluate_directory guarantees, in terms of the cluster and not of the tests.
use platform_gitops.Prelude.{
  ℕ, String, ◌==◌, ◌≡◌, refl, eq_iff, true, not, List, Mem, arith, length, all-mem, any-mem,
  any-find, mem-filter, mem-map_of_mem, ne_of_not_contained, inl, inr, filter, all, nat_eq,
}
use platform_gitops.Longhorn.Kube.{
  Volume, Replica, LonghornAttachment, PersistentVolume, PersistentVolumeClaim,
}
use platform_gitops.Longhorn.Disks.{IsoReader}
use platform_gitops.Longhorn.Candidate.{
  ReplicaDirectory, ReclaimCandidate, Cluster, pass, engine_is_active, is_live,
  pod_claim_reference_is_quiescent,
}
use platform_gitops.Longhorn.Evaluate.{
  current_replicas, is_indexed, evaluate_directory, check_directory, check_volume, check_replicas,
  check_local, check_engines, check_claim,
}
use platform_gitops.Longhorn.Inversion.{Check-cases}
use platform_gitops.Longhorn.Safety
use platform_gitops.Longhorn.Needs.{
  IsKept, IsBoundTo, IsReclaimable, engine_stopped, quiescent_pod, volume-IsDetached, is_live-pass,
  live-is_live, bound-IsBoundTo, only-passes, two_copies, current-mem,
}

module _ (from_iso : IsoReader) (c : Cluster) (ready inactive : List String) (age bytes : ℕ)
    (d : ReplicaDirectory) where
  candidate_of : Volume → ReclaimCandidate
  candidate_of v = record {
    directory = d;
    pvc_namespace = v.kubernetes_status.namespace;
    pvc_name = v.kubernetes_status.pvc_name;
    pv_name = v.kubernetes_status.pv_name;
  }

  -- Every stage has passed, and the candidate is made of the directory and the volume.
  stages :
      (x : ReclaimCandidate)
      → evaluate_directory from_iso c ready inactive age bytes d ≡ pass x
      → (v : Volume) × (check_directory c age bytes d ≡ pass tt)
        × (check_volume c ready inactive d ≡ pass v)
        × (check_replicas from_iso c d v ≡ pass tt)
        × (check_local c d ≡ pass tt)
        × (check_engines c d ≡ pass tt)
        × (check_claim c d v.kubernetes_status ≡ pass tt)
        × (x ≡ candidate_of v)
  unfolding evaluate_directory candidate_of
  stages x h = elim (Check-cases (check_volume c ready inactive d)) [
    | inl (v, e) ↦
        (v, ground arith, e, ground arith, ground arith, ground arith, ground arith, ground arith)
    | inr (r, e) ↦ absurd (ground arith)
  ]

  -- The replica that stays, and its directory: the one of the volume's replica on the same disk.
  other_directory :
      check_directory c age bytes d ≡ pass tt
      → check_local c d ≡ pass tt
      → (r : Replica) × IsKept c d r
  unfolding is_indexed
  other_directory h k =
      let (_, _, unregistered) = Safety.check_directory-pass from_iso c d age bytes h in
      let (r, only, indexed) = Safety.check_local-pass from_iso c d k in
      let (e, m, passes) = any-find _ c.directories indexed in
      let (held, here) = only-passes _ (current_replicas c d) r only in
      (
        r,
        (
          held,
          ground (arith, eq_iff r.node_id c.node_name),
          ground (arith, eq_iff r.disk_id d.disk_id),
          ne_of_not_contained d.directory_name _ r.data_directory_name unregistered
              (mem-map_of_mem (λ r. r.data_directory_name) (current-mem c d r held)),
          (
            e,
            m,
            ground arith,
            ground (arith, eq_iff e.disk_id d.disk_id),
            ground (arith, eq_iff e.directory_name r.data_directory_name),
          ),
        ),
      )

  -- The only live attachment has no ticket.
  no_tickets :
      check_engines c d ≡ pass tt
      → (a : LonghornAttachment) → Mem a c.longhorn_attachments
      → a.metadata.name ≡ d.volume_name
      → a.metadata.deletion_timestamp ≡ ""
      → length a.tickets ≡ 0
  no_tickets h a m n live =
      let (_, (b, only, empty)) = Safety.check_engines-pass from_iso c d h in
      let live_ones = filter (λ a. is_live d.volume_name a.metadata) c.longhorn_attachments in
      let none_has : all (λ a. nat_eq (length a.tickets) 0) live_ones ≡ true =
        rw (only, empty) refl in
      let shut : nat_eq (length a.tickets) 0 ≡ true =
        all-mem (λ a. nat_eq (length a.tickets) 0) live_ones a none_has
          (mem-filter _ c.longhorn_attachments a m
            (live-is_live d.volume_name a.metadata n live)) in
      ground (arith, shut)

  bound_claim :
      (v : Volume)
      → check_claim c d v.kubernetes_status ≡ pass tt
      → (pv : PersistentVolume) × (pvc : PersistentVolumeClaim) × Mem pv c.pvs
        × Mem pvc c.pvcs
        × IsBoundTo (candidate_of v) pv pvc
  unfolding candidate_of
  bound_claim v h =
      let (_, _, (pv, only_pv, bound, (pvc, only_pvc, claimed))) =
        Safety.check_claim-pass from_iso c d v.kubernetes_status h in
      let (held, live) = only-passes _ c.pvs pv only_pv in
      let (held_claim, live_claim) = only-passes _ c.pvcs pvc only_pvc in
      (
        pv,
        pvc,
        held,
        held_claim,
        bound-IsBoundTo (candidate_of v) pv pvc live bound live_claim claimed,
      )

  -- A candidate is reclaimable: old and large enough, and registered nowhere, while its volume has at
  -- least two replicas, as many as it asks for, all safe and on distinct nodes, one of them on the
  -- same disk with a directory of another name. The volume is detached, its engines are stopped, its
  -- live attachments have no ticket, its persistent volume and claim are bound to each other, no
  -- attachment of the cluster names the former, and each pod that uses the claim is pending on no node.
  pub evaluate_directory-IsReclaimable :
      (x : ReclaimCandidate)
      → evaluate_directory from_iso c ready inactive age bytes d ≡ pass x
      → (x.directory ≡ d) × IsReclaimable from_iso c age bytes x
  evaluate_directory-IsReclaimable x h =
      let (v, directory, volume, replicas, local, engines, claim, same) = stages x h in
      let (large, old, unregistered) =
        Safety.check_directory-pass from_iso c d age bytes directory in
      let (only_v, _, detached) = Safety.check_volume-pass from_iso c d ready inactive v volume in
      let (held_v, live_v) = only-passes _ c.volumes v only_v in
      let (is_named, not_deleted) = is_live-pass d.volume_name v.metadata live_v in
      let (count, healthy, apart) = Safety.check_replicas-pass from_iso c d v replicas in
      let (stopped, _) = Safety.check_engines-pass from_iso c d engines in
      let (idle, unattached, _) = Safety.check_claim-pass from_iso c d v.kubernetes_status claim in
      rw same (
        unfold candidate_of in
        (
          refl,
          record {
            large = large;
            old = old;
            unregistered = λ r m.
                ne_of_not_contained d.directory_name _ r.data_directory_name unregistered
                  (mem-map_of_mem (λ r. r.data_directory_name) m);
            copies = omega (arith, two_copies v detached, count);
            healthy = λ r m. all-mem _ (current_replicas c d) r healthy m;
            apart = apart;
            kept = other_directory directory local;
            volume = (v, held_v, is_named, not_deleted, count, volume-IsDetached v detached);
            without_tickets = no_tickets engines;
            bound = bound_claim v claim;
            stopped = λ e m named. engine_stopped e (
                any-mem engine_is_active _ e stopped
                  (mem-filter _ c.engines e m ((eq_iff e.volume_name d.volume_name).1 named)));
            unattached = λ a m named. cc (
              any-mem (λ b. b.source_pv_name == v.kubernetes_status.pv_name) c.native_attachments a
                  unattached m,
              (eq_iff a.source_pv_name v.kubernetes_status.pv_name).1 named,
            );
            unused = λ p m uses.
                quiescent_pod v.kubernetes_status.namespace v.kubernetes_status.pvc_name p
                  (ground (
                    arith,
                    any-mem
                        (λ q. not (
                          pod_claim_reference_is_quiescent v.kubernetes_status.namespace
                            v.kubernetes_status.pvc_name q))
                        c.pods p idle m,
                  ))
                  uses;
          },
        ))
