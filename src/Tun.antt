-- ===== src/Tun.antt =====
-- internal/tun/tun.go: the TUN device.
pub mod Host
pub mod Device
pub mod Component
pub mod Poll
