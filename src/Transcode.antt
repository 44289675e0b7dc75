-- ===== src/Transcode.antt =====
-- internal/transcode/worker.go and the profiles of pkg/media/transcode.go.
pub mod Profiles
pub mod Worker
pub mod Status
