-- ===== src/Pressure.antt =====
-- scripts/relieve_longhorn_disk_pressure.py: the restoration of the scheduling state that an earlier
-- release had saved in an annotation.
pub mod Restore
pub mod Restored
pub mod Witnesses
