-- ===== src/Like.antt =====
-- internal/like: likes over Redis, with one set of videos for each user and counters in shards.
pub mod Redis
pub mod Service
pub mod Aggregator
pub mod Calls
pub mod Effect
pub mod Sums
pub mod Balance
pub mod Runs
pub mod Count
pub mod Rollback
pub mod Reconcile
pub mod Memory
pub mod Consumer
pub mod Told
pub mod Batch
pub mod MemRepo
pub mod MysqlRepo
pub mod Stored
pub mod Latest
pub mod Arrival
pub mod Read
pub mod Scan
