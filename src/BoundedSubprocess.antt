-- ===== src/BoundedSubprocess.antt =====
-- scripts/bounded_subprocess.py: two reader threads and a writer that share one bounded capture, and
-- what run_bounded makes of it.
pub mod OutputLimit
pub mod Capture
pub mod Threads
pub mod Outcome
pub mod Sound
pub mod Exact
pub mod Witnesses
