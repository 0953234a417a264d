-- ===== src/Gateway.antt =====
-- The client gateway (Client Gateway/): logins, and the relay between clients and client servers.
pub mod Digest
pub mod Uuid
pub mod Console
pub mod Host
pub mod Client
pub mod Pointers
pub mod Relay
pub mod LoginServer
pub mod Session
pub mod Servers
pub mod EventLoop
