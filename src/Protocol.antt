-- ===== src/Protocol.antt =====
-- internal/protocol: the packet format, its authenticated encryption and the replay window.
pub mod ReplayWindow
pub mod Message
pub mod Codec
pub mod Payload
pub mod Aead
pub mod Packet
pub mod Handshake
