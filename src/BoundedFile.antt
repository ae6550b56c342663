-- ===== src/BoundedFile.antt =====
-- scripts/bounded_file.py: reads of local files and streams that keep no more than a limit.
pub mod Limit
pub mod Read
pub mod Stream
pub mod Descriptor
pub mod Newlines
pub mod Witnesses
