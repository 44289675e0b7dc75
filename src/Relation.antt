-- ===== src/Relation.antt =====
-- internal/relation: which accounts are large, with a cache of their follower counts.
pub mod Service
pub mod Laws
pub mod MysqlRepo
