-- ===== src/Client.antt =====
-- internal/client: the configuration, the handshake, the routes and the session of a client.
pub mod Config
pub mod Handshake
pub mod Bypass
pub mod Setup
pub mod Session
