-- ===== src/Api.antt =====
-- internal/api: the handlers of HTTP requests, and the router in front of them.
pub mod Service
pub mod Answer
pub mod Likes
pub mod Comments
pub mod Videos
pub mod Follows
pub mod Users
pub mod Router
pub mod Upload
pub mod Safety
pub mod Serving
pub mod Liking
