-- ===== src/Streams.antt =====
-- The streams of one session (crates/abyss-backend/src/usage/streams.rs and the modules below it).
pub mod Events
pub mod Conversation
pub mod Facts
pub mod Exchanges
pub mod Bases
pub mod Turns
pub mod Segmentation
pub mod Structure
pub mod Answers
pub mod Timeline
pub mod Sample
