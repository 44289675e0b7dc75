-- ===== src/Feed.antt =====
-- internal/feed: the push and pull halves of the following feed over Redis.
pub mod Timeline
pub mod Fanout
pub mod Merge
pub mod Read
pub mod Service
