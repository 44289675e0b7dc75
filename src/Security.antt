-- ===== src/Security.antt =====
-- pkg/security: the protection of the login, and the headers of answers.
pub mod Login
pub mod Lockout
pub mod Guard
pub mod Attempts
pub mod Cors
