-- ===== src/Auth.antt =====
-- internal/auth/auth.go: tokens, and the middleware that finds out who sends a request.
pub mod Context
pub mod Token
pub mod RoundTrip
