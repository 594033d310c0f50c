-- ===== src/Store.antt =====
-- internal/idp/storage.go: the OIDC provider's in-memory store.
pub mod Types
pub mod Prune
pub mod Requests
pub mod Login
pub mod Sessions
pub mod Access
pub mod Tokens
pub mod Clients
pub mod Info
pub mod Calls
pub mod Families
pub mod Codes
pub mod Pending
pub mod Served
