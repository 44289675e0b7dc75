-- ===== src/Rec.antt =====
-- internal/rec: the recommended feed.
pub mod Scorer
pub mod Filter
pub mod Diversity
pub mod Injection
pub mod Service
pub mod Page
pub mod Pools
pub mod Merge
