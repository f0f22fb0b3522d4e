-- ===== src/Server.antt =====
-- internal/server/server.go: the router's HTTP server.
pub mod Request
pub mod Names
pub mod Config
pub mod State
pub mod Chat
pub mod Handle
pub mod Handlers
pub mod Probe
pub mod Switch
pub mod Lifecycle
pub mod Routes
pub mod Affinity
pub mod Http
pub mod Failover
pub mod Status
pub mod System
pub mod Samples
mod Tests
