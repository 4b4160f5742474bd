-- ===== src/Projection.antt =====
-- The PostgreSQL search projection (storage/postgres/search/).
pub mod Outbox
pub mod Markers
pub mod Document
pub mod Bulk
pub mod Worker
pub mod Iteration
pub mod Page
pub mod Hydration
mod Tests
