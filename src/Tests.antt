-- ===== src/Tests.antt =====
-- Sample runs of the components, and the theorems at inputs that meet their hypotheses.
pub mod Samples
mod StoreRuns
mod RelationRuns
mod TranscodeRuns
mod FeedRuns
mod LikeRuns
mod ApiRuns
mod LimitRuns
mod MqRuns
mod MysqlRuns
mod AccountRuns
mod RecRuns
mod SecurityRuns
mod RepoRuns
mod StoredRuns
mod ServerRuns
