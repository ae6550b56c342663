-- ===== src/Migration.antt =====
-- scripts/forge_migration.py: how the comments of a migrated issue are compared and completed.
pub mod Comments
pub mod Replication
pub mod Refs
pub mod SameRefs
pub mod Mirrored
pub mod Issues
pub mod Replicated
pub mod Examples
pub mod Witnesses
