-- ===== src/Server.antt =====
-- common: what the server keeps besides its connections.
pub mod Files
pub mod Log
pub mod Query
pub mod Daemon
pub mod Dispatch
pub mod Connections
pub mod Response
pub mod Stats
pub mod Tests
