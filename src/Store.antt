-- ===== src/Store.antt =====
-- internal/store/store.go: the state of the in-memory store and its operations in child modules named
-- for what they handle, and the proofs beside them. Every operation runs under the store's lock, so
-- each is one step on the state. Mysql has branches for a store with a database.
pub mod State
pub mod Users
pub mod Videos
pub mod Likes
pub mod Comments
pub mod Follows
pub mod Lists
pub mod Mysql
pub mod Calls
pub mod Invariant
pub mod Spec
pub mod Refinement
