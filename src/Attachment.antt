-- ===== src/Attachment.antt =====
-- scripts/repair_stuck_longhorn_attachments.py: the repair of volumes whose attachment is stuck, by
-- deleting a stale native attachment or by failing one stopped replica on a disk that is gone.
pub mod Kube
pub mod Checks
pub mod Evaluate
pub mod Actions
pub mod Recycle
pub mod Repair
pub mod Traces
pub mod Recycling
pub mod Quarantining
pub mod OnlyProven
pub mod Sound
pub mod Idle
pub mod Examples
pub mod Witnesses
