-- ===== src/Longhorn/Safety.antt =====
-- What evaluate_directory proves of a directory that it gives up.
use platform_gitops.Prelude.{
  ℕ, ◌+◌, ◌*◌, ◌≤◌, String, ◌==◌, ◌≡◌, true, false, not, ◌&&◌, ◌||◌, List, [], ◌∷◌, map, arith,
  nat_eq, length, all, any, filter, contains, IsDistinct, IsDistinct-of_length, or→neither,
  nil_of_length,
}
use platform_gitops.Longhorn.Kube.{
  Volume, KubernetesStatus, Replica, LonghornAttachment, PersistentVolume, PersistentVolumeClaim,
  integer,
}
use platform_gitops.Longhorn.Disks.{IsoReader, registered_disks, replica_is_safe}
use platform_gitops.Longhorn.Candidate.{
  ReplicaDirectory, Cluster, Check, pass, reject_if, the_only, ◌>>=◌, ◌>>◌, is_live,
  engine_is_active, volume_is_attached, pod_claim_reference_is_quiescent, pv_is_unbound,
  pvc_is_unbound, volume_identity_not_unique, volume_controller_owner_not_ready,
  volume_not_safely_detached, volume_engine_not_fully_stopped, longhorn_attachment_ticket_present,
}
use platform_gitops.Longhorn.Evaluate.{
  current_replicas, is_indexed, check_directory, check_volume, check_replicas, check_local,
  check_engines, check_claim,
}
use platform_gitops.Longhorn.Inversion.{reject_if-pass, the_only-pass, reject_if-end}

-- The facts about one directory and the claim of its volume.
module _ (from_iso : IsoReader) (c : Cluster) (d : ReplicaDirectory) where
  pub check_directory-pass :
      (age bytes : ℕ)
      → check_directory c age bytes d ≡ pass tt
      → (bytes ≤ d.allocated_bytes)
        × (d.newest_mtime_ns + age * 1000000000 ≤ c.now_ns)
        × (contains d.directory_name (map (λ r. r.data_directory_name) c.replicas) ≡ false)
  unfolding check_directory
  check_directory-pass age bytes h = ground arith

  -- `check_volume` behind the choice of the volume.
  abbrev pub owned_and_detached : List String → List String → Volume → Check Volume
  owned_and_detached ready inactive v = do
    reject_if (not (contains v.owner_id ready || contains v.owner_id inactive))
        volume_controller_owner_not_ready
    reject_if (volume_is_attached v) volume_not_safely_detached
    pass v

  owned_and_detached-pass :
      (ready inactive : List String) (w v : Volume)
      → owned_and_detached ready inactive w ≡ pass v
      → ((contains w.owner_id ready || contains w.owner_id inactive) ≡ true)
        × (volume_is_attached w ≡ false)
        × (w ≡ v)
  owned_and_detached-pass ready inactive w v h = ground arith

  pub check_volume-pass :
      (ready inactive : List String) (v : Volume)
      → check_volume c ready inactive d ≡ pass v
      → (filter (λ w. is_live d.volume_name w.metadata) c.volumes ≡ v ∷ [])
        × ((contains v.owner_id ready || contains v.owner_id inactive) ≡ true)
        × (volume_is_attached v ≡ false)
  unfolding check_volume
  check_volume-pass ready inactive v h =
      let (w, only, h₁) =
        the_only-pass (filter (λ w. is_live d.volume_name w.metadata) c.volumes)
          volume_identity_not_unique (owned_and_detached ready inactive) h in
      let (owned, detached, same) = owned_and_detached-pass ready inactive w v h₁ in
      (rw (← same) only, rw (← same) owned, rw (← same) detached)

  pub check_replicas-pass :
      (v : Volume)
      → check_replicas from_iso c d v ≡ pass tt
      → (length (current_replicas c d) ≡ integer v.number_of_replicas 0)
        × (all (replica_is_safe from_iso (registered_disks c.nodes)) (current_replicas c d) ≡ true)
        × IsDistinct (map (λ r. r.node_id) (current_replicas c d))
  unfolding check_replicas
  check_replicas-pass v h =
      ground (arith, IsDistinct-of_length (map (λ r. r.node_id) (current_replicas c d)))

  pub check_local-pass :
      check_local c d ≡ pass tt
      → (r : Replica) × (filter
            (λ r. r.node_id == c.node_name && r.disk_id == d.disk_id)
            (current_replicas c d)
          ≡ r ∷ [])
        × (is_indexed d.disk_id r.data_directory_name c.directories ≡ true)
  unfolding check_local
  check_local-pass h =
      let (r, only, h₁) = the_only-pass _ _ _ h in (r, only, ground (arith, reject_if-end _ _ h₁))

  abbrev pub without_tickets : LonghornAttachment → Check (Unit {0})
  without_tickets a =
      reject_if (not (nat_eq (length a.tickets) 0)) longhorn_attachment_ticket_present

  without_tickets-pass : (a : LonghornAttachment) → without_tickets a ≡ pass tt → a.tickets ≡ []
  without_tickets-pass a h = nil_of_length a.tickets (ground arith)

  pub check_engines-pass :
      check_engines c d ≡ pass tt
      → (any engine_is_active (filter (λ e. e.volume_name == d.volume_name) c.engines) ≡ false)
        × ((a : LonghornAttachment) × (filter
                (λ a. is_live d.volume_name a.metadata)
                c.longhorn_attachments
              ≡ a ∷ [])
            × (a.tickets ≡ []))
  unfolding check_engines
  check_engines-pass h =
      let engines = filter (λ e. e.volume_name == d.volume_name) c.engines in
      let (stopped, h₁) =
        reject_if-pass (nat_eq (length engines) 0 || any engine_is_active engines)
          volume_engine_not_fully_stopped
          (the_only (filter (λ a. is_live d.volume_name a.metadata) c.longhorn_attachments)
              longhorn_attachment_ticket_present
            >>= without_tickets)
          h in
      let (a, only, h₂) =
        the_only-pass (filter (λ a. is_live d.volume_name a.metadata) c.longhorn_attachments)
          longhorn_attachment_ticket_present without_tickets h₁ in
      (
        (or→neither (nat_eq (length engines) 0) (any engine_is_active engines) stopped).1,
        (a, only, without_tickets-pass a h₂),
      )

  pub check_claim-pass :
      (k : KubernetesStatus)
      → check_claim c d k ≡ pass tt
      → (any (λ p. not (pod_claim_reference_is_quiescent k.namespace k.pvc_name p)) c.pods ≡ false)
        × (any (λ a. a.source_pv_name == k.pv_name) c.native_attachments ≡ false)
        × ((pv : PersistentVolume) × (filter (λ p. is_live k.pv_name p.metadata) c.pvs ≡ pv ∷ [])
            × (pv_is_unbound pv d.volume_name k.namespace k.pvc_name ≡ false)
            × ((pvc : PersistentVolumeClaim) × (filter
                    (λ p. p.metadata.namespace == k.namespace && is_live k.pvc_name p.metadata)
                    c.pvcs
                  ≡ pvc ∷ [])
                × (pvc_is_unbound pvc pv k.pv_name ≡ false)))
  unfolding check_claim
  check_claim-pass k h =
      let (named, h₁) = reject_if-pass _ _ _ h in
      let (pv, only_pv, h₂) = the_only-pass _ _ _ h₁ in
      let (bound, h₃) = reject_if-pass _ _ _ h₂ in
      let (pvc, only_pvc, h₄) = the_only-pass _ _ _ h₃ in
      let (claimed, h₅) = reject_if-pass _ _ _ h₄ in
      let (idle, h₆) = reject_if-pass _ _ _ h₅ in
      (idle, reject_if-end _ _ h₆, (pv, only_pv, bound, (pvc, only_pvc, claimed)))
