-- ===== src/OAuth.antt =====
-- The mock OAuth server, simulator/src/oauth.
pub mod Users
pub mod Watcher
pub mod Der
pub mod Http
pub mod State
pub mod Clients
pub mod Pages
pub mod Authorize
pub mod Token
pub mod UserInfo
pub mod Byoidc
pub mod Server
pub mod Infra
mod Tests
