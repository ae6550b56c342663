-- ===== src/StrictJson.antt =====
-- scripts/strict_json.py: documents with no repeated key, no infinite number, and limits on their
-- nodes and nesting.
pub mod Document
pub mod Validate
pub mod Measure
pub mod Limits
pub mod Keys
pub mod Witnesses
