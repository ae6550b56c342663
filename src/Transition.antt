-- ===== src/Transition.antt =====
-- scripts/forge_transition.py: the phases of a repository transition between forges, its durable
-- state, and the commands that hand authority over and back.
pub mod State
pub mod Store
pub mod Approval
pub mod Rollback
pub mod Reconcile
pub mod Prepare
pub mod Enter
pub mod Finalize
pub mod Failback
pub mod Keeps
pub mod Leads
pub mod Ordered
pub mod Handover
pub mod Authority
pub mod Entering
pub mod Undone
pub mod RolledBack
pub mod Durable
pub mod Witnesses
mod Returning
mod Confirmed
pub mod Freezing
pub mod EnterConfirmed
pub mod FinalConfirmed
pub mod Relay
