-- ===== src/AtomicFile.antt =====
-- scripts/atomic_file.py: files that are replaced as a whole.
pub mod Write
pub mod Whole
pub mod Witnesses
