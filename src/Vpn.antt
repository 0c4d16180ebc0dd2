-- ===== src/Vpn.antt =====
-- internal/vpn: what is set up on the host and torn down again, and the manager of these components.
pub mod Manager
pub mod Route
pub mod Forward
pub mod Masquerade
