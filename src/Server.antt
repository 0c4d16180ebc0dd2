-- ===== src/Server.antt =====
-- internal/server: peers, their store, the handlers and the packet loops.
pub mod Peer
pub mod PeerStore
pub mod Config
pub mod Allocation
pub mod Ipv4
pub mod Action
pub mod Handlers
pub mod Loops
pub mod Runs
pub mod Setup
