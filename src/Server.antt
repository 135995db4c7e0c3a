-- ===== src/Server.antt =====
-- src/server/: the gateway's HTTP side.
pub mod Http
pub mod State
pub mod Middleware
pub mod Proxy
pub mod Reports
pub mod App
pub mod Admin
pub mod Gateway
pub mod Startup
pub mod Shutdown
mod Tests
