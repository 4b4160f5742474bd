-- ===== src/Usage.antt =====
-- The queries and answers of the usage endpoints (crates/abyss-backend/src/usage).
pub mod Preview
pub mod Comparison
pub mod Attachments
pub mod Events
pub mod Locations
pub mod Segments
pub mod Filters
pub mod SessionList
pub mod Ingest
mod Tests
