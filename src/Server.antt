-- ===== src/Server.antt =====
-- internal/idp/server.go: the HTTP handlers of a realm.
pub mod Http
pub mod Pkce
pub mod Gates
pub mod Realm
pub mod Protocol
pub mod Login
pub mod Sorted
pub mod Origins
pub mod Handler
pub mod Realms
pub mod Root
pub mod Html
