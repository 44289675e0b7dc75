-- ===== src/Server.antt =====
-- cmd/server/main.go and pkg/config: the settings, and what joins the components.
pub mod Settings
pub mod Adapters
pub mod Workers
