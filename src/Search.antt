-- ===== src/Search.antt =====
-- Literal substring matching, which every storage backend shares
-- (crates/abyss-backend/src/search/matching).
pub mod Text
pub mod Pattern
pub mod Fragment
pub mod Pieces
pub mod InSession
pub mod Ranking
mod Tests
pub mod Query
