-- ===== src/Query.antt =====
-- query/: from phrases to a graph over trigrams.
pub mod Phrase
pub mod Combine
pub mod Match
pub mod Cases
pub mod Builder
pub mod Eval
pub mod Adds
pub mod Insert
pub mod Follow
pub mod Sound
mod Tests
