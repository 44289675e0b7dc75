-- ===== src/Store/Invariant.antt =====
-- What holds of the store in every state that its operations reach.
pub mod Keys
pub mod Comments
pub mod LikeCounts
pub mod Mirror
