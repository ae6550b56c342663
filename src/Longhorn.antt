-- ===== src/Longhorn.antt =====
-- scripts/reclaim_stale_longhorn_replica_data.py: which replica directory may be reclaimed under
-- disk pressure, and its quarantine, restore and removal.
pub mod Kube
pub mod Names
pub mod RoundTrip
pub mod Metrics
pub mod Managers
mod ManagerGroups
pub mod Quorum
pub mod Disks
pub mod Candidate
pub mod Evaluate
pub mod Select
pub mod Quarantine
pub mod Quarantined
pub mod Restored
mod Examples
mod Witnesses
mod FileWitnesses
pub mod Run
pub mod RunSafety
mod Inversion
mod Safety
pub mod Selected
pub mod Needs
pub mod Reclaimable
