-- ===== src/Longhorn/Needs.antt =====
-- What may need a replica directory, and that the tests of evaluate_directory rule it out.
use platform_gitops.Prelude.{
  ℕ, ◌+◌, ◌*◌, ◌≤◌, String, ◌==◌, ◌≡◌, ◌≢◌, eq_iff, true, false, List, [], map, Mem, arith, length,
  IsDistinct, mem_of_mem-filter, mem_of_filter-eq, passes_of_mem-filter, mem-cons_self, filter, ◌∷◌,
  ◌&&◌, Bool,
}
use platform_gitops.Longhorn.Kube.{
  Metadata, Pod, Volume, Replica, Engine, NativeAttachment, LonghornAttachment, PersistentVolume,
  PersistentVolumeClaim, truthy, integer,
}
use platform_gitops.Longhorn.Disks.{IsoReader, registered_disks, replica_is_safe}
use platform_gitops.Longhorn.Candidate.{
  ReplicaDirectory, ReclaimCandidate, Cluster, engine_is_active, volume_is_attached, is_live,
  pv_is_unbound, pvc_is_unbound, pod_uses_claim, pod_claim_reference_is_quiescent,
}
use platform_gitops.Longhorn.Evaluate.{current_replicas}

-- A volume that is on no node and moves to none, nor is being restored, and that holds data.
pub record IsDetached (v : Volume) : Type 0 where
  pub detached : v.state ≡ "detached"
  pub on_no_node : (v.spec_node_id ≡ "") × (v.current_node_id ≡ "")
  pub not_migrating : (v.migration_node_id ≡ "") × (v.current_migration_node_id ≡ "")
  pub not_restoring : (v.from_backup ≡ "") × (v.restore_required ≡ false)
  pub has_data : integer v.actual_size 0 ≢ 0

-- The replica of the volume on the directory's disk, with a directory of its own.
abbrev pub IsKept : Cluster → ReplicaDirectory → Replica → Type 0
IsKept c d r =
    Mem r (current_replicas c d)
    × (r.node_id ≡ c.node_name)
    × (r.disk_id ≡ d.disk_id)
    × (r.data_directory_name ≢ d.directory_name)
    × ((e : ReplicaDirectory) × Mem e c.directories
        × (e.tombstone ≡ false)
        × (e.disk_id ≡ d.disk_id)
        × (e.directory_name ≡ r.data_directory_name))

-- A persistent volume of a Longhorn volume, bound to a claim that is bound to it.
abbrev pub IsBoundTo : ReclaimCandidate → PersistentVolume → PersistentVolumeClaim → Type 0
IsBoundTo x pv pvc =
    (pv.metadata.name ≡ x.pv_name)
    × (pv.phase ≡ "Bound")
    × (pv.csi_volume_handle ≡ x.directory.volume_name)
    × (pv.claim_namespace ≡ x.pvc_namespace)
    × (pv.claim_name ≡ x.pvc_name)
    × (pvc.metadata.namespace ≡ x.pvc_namespace)
    × (pvc.metadata.name ≡ x.pvc_name)
    × (pvc.phase ≡ "Bound")
    × (pvc.volume_name ≡ x.pv_name)
    × (pv.claim_uid ≡ pvc.metadata.uid)

-- Nothing in the cluster needs the directory of the candidate.
pub record IsReclaimable (from_iso : IsoReader) (c : Cluster) (age bytes : ℕ) (x : ReclaimCandidate)
    : Type 0 where
  pub large : bytes ≤ x.directory.allocated_bytes
  pub old : x.directory.newest_mtime_ns + age * 1000000000 ≤ c.now_ns
  pub unregistered :
      (r : Replica) → Mem r c.replicas → r.data_directory_name ≢ x.directory.directory_name
  pub copies : 2 ≤ length (current_replicas c x.directory)
  pub healthy :
      (r : Replica)
      → Mem r (current_replicas c x.directory)
      → replica_is_safe from_iso (registered_disks c.nodes) r ≡ true
  pub apart : IsDistinct (map (λ r. r.node_id) (current_replicas c x.directory))
  pub kept : (r : Replica) × IsKept c x.directory r
  pub volume :
      (v : Volume) × Mem v c.volumes
      × (v.metadata.name ≡ x.directory.volume_name)
      × (v.metadata.deletion_timestamp ≡ "")
      × (length (current_replicas c x.directory) ≡ integer v.number_of_replicas 0)
      × IsDetached v
  pub without_tickets :
      (a : LonghornAttachment)
      → Mem a c.longhorn_attachments
      → a.metadata.name ≡ x.directory.volume_name
      → a.metadata.deletion_timestamp ≡ ""
      → length a.tickets ≡ 0
  pub bound :
      (pv : PersistentVolume) × (pvc : PersistentVolumeClaim) × Mem pv c.pvs
      × Mem pvc c.pvcs
      × IsBoundTo x pv pvc
  pub stopped :
      (e : Engine)
      → Mem e c.engines
      → e.volume_name ≡ x.directory.volume_name
      → (e.desire_state ≡ "stopped") × (e.current_state ≡ "stopped") × (e.node_id ≡ "")
  pub unattached :
      (a : NativeAttachment) → Mem a c.native_attachments → a.source_pv_name ≢ x.pv_name
  pub unused :
      (p : Pod)
      → Mem p c.pods
      → pod_uses_claim x.pvc_namespace x.pvc_name p ≡ true
      → (p.phase ≡ "Pending") × (p.node_name ≡ "")

not_truthy : (s : String) → truthy s ≡ false → s ≡ ""
not_truthy s h = ground (arith, eq_iff s "")

pub engine_stopped :
    (e : Engine)
    → engine_is_active e ≡ false
    → (e.desire_state ≡ "stopped") × (e.current_state ≡ "stopped") × (e.node_id ≡ "")
unfolding engine_is_active
engine_stopped e h =
    ground (
      arith,
      eq_iff e.desire_state "stopped",
      eq_iff e.current_state "stopped",
      eq_iff e.node_id "",
    )

pub quiescent_pod :
    (namespace name : String) (p : Pod)
    → pod_claim_reference_is_quiescent namespace name p ≡ true
    → pod_uses_claim namespace name p ≡ true
    → (p.phase ≡ "Pending") × (p.node_name ≡ "")
unfolding pod_claim_reference_is_quiescent
quiescent_pod namespace name p h u = ground (arith, eq_iff p.phase "Pending", eq_iff p.node_name "")

pub volume-IsDetached : (v : Volume) → volume_is_attached v ≡ false → IsDetached v
unfolding volume_is_attached
volume-IsDetached v h = record {
  detached = ground (arith, eq_iff v.state "detached");
  on_no_node =
      (ground (arith, eq_iff v.spec_node_id ""), ground (arith, eq_iff v.current_node_id ""));
  not_migrating = (
    ground (arith, eq_iff v.migration_node_id ""),
    ground (arith, eq_iff v.current_migration_node_id ""),
  );
  not_restoring = (ground (arith, eq_iff v.from_backup ""), ground arith);
  has_data = λ e. ground arith;
}

-- What a live object of a name is.
pub is_live-pass :
    (name : String) (m : Metadata)
    → is_live name m ≡ true
    → (m.name ≡ name) × (m.deletion_timestamp ≡ "")
is_live-pass name m h =
    (ground (arith, eq_iff m.name name), ground (arith, eq_iff m.deletion_timestamp ""))

pub live-is_live :
    (name : String) (m : Metadata)
    → m.name ≡ name
    → m.deletion_timestamp ≡ ""
    → is_live name m ≡ true
live-is_live name m n d = ground (arith, eq_iff m.name name, eq_iff m.deletion_timestamp "")

pub bound-IsBoundTo :
    (x : ReclaimCandidate) (pv : PersistentVolume) (pvc : PersistentVolumeClaim)
    → is_live x.pv_name pv.metadata ≡ true
    → pv_is_unbound pv x.directory.volume_name x.pvc_namespace x.pvc_name ≡ false
    → (pvc.metadata.namespace == x.pvc_namespace && is_live x.pvc_name pvc.metadata) ≡ true
    → pvc_is_unbound pvc pv x.pv_name ≡ false
    → IsBoundTo x pv pvc
unfolding pv_is_unbound pvc_is_unbound
bound-IsBoundTo x pv pvc h j k l = (
  ground (arith, eq_iff pv.metadata.name x.pv_name),
  ground (arith, eq_iff pv.phase "Bound"),
  ground (arith, eq_iff pv.csi_volume_handle x.directory.volume_name),
  ground (arith, eq_iff pv.claim_namespace x.pvc_namespace),
  ground (arith, eq_iff pv.claim_name x.pvc_name),
  ground (arith, eq_iff pvc.metadata.namespace x.pvc_namespace),
  ground (arith, eq_iff pvc.metadata.name x.pvc_name),
  ground (arith, eq_iff pvc.phase "Bound"),
  ground (arith, eq_iff pvc.volume_name x.pv_name),
  ground (arith, eq_iff pv.claim_uid pvc.metadata.uid),
)

-- The only member that passes a test is a member that passes it.
pub only-passes {ℓ} :
    {A : Type ℓ} (p : A → Bool) (xs : List A) (x : A)
    → filter p xs ≡ x ∷ []
    → Mem x xs × (p x ≡ true)
only-passes p xs x e =
    (mem_of_filter-eq p xs x [] e, passes_of_mem-filter p xs x (rw e mem-cons_self))

pub two_copies : (v : Volume) → volume_is_attached v ≡ false → 2 ≤ integer v.number_of_replicas 0
unfolding volume_is_attached
two_copies v h = ground arith

pub current-mem :
    (c : Cluster) (d : ReplicaDirectory) (r : Replica)
    → Mem r (current_replicas c d)
    → Mem r c.replicas
unfolding current_replicas
current-mem c d r m = mem_of_mem-filter _ c.replicas r m
