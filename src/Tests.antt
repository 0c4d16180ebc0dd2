-- ===== src/Tests.antt =====
-- Runs at concrete inputs: of the protocol, of the server on a network of four addresses, and of a client.
pub mod ToyCrypto
pub mod Protocol
pub mod Handshakes
pub mod Server
pub mod ServerRuns
pub mod BothSides
pub mod Client
pub mod Host
pub mod Netlink
