-- ===== src/Netlink.antt =====
-- internal/netlink: requests to the kernel, their acknowledgements, and the kernel's dumps.
pub mod Wire
pub mod Acks
pub mod RouteRequest
pub mod Nftable
pub mod InetDiag
pub mod DefaultRoute
