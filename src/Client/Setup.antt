-- ===== src/Client/Setup.antt =====
-- internal/client/client.go: what `Run` sets up on the host between the handshake and the session.
pub mod Calls
pub mod Found
pub mod Bypassed
use elevpn.Prelude.{Option, none, some, List, [], ◌∷◌, Result, ok, err, ◌>>=◌}
use elevpn.Bytes.{Bytes}
use elevpn.Protocol.Payload.{Addr, invalid, v4, v6}
use elevpn.Net.{CidrText, malformed, cidr4, cidr6}
use elevpn.Bytes.{be}
use elevpn.Netlink.DefaultRoute.{DefaultRoute}
use elevpn.Tun.Host.{Os}
use elevpn.Tun.Device.{new_tun}
use elevpn.Tun.Component.{tun_component}
use elevpn.Vpn.Manager.{Component, Managed, apply_all}
use elevpn.Vpn.Route.{IpText, ip, RouteSpec, RouteOps, InterfaceIndex, new_route}
use elevpn.Client.Config.{ClientConfig}
use elevpn.Client.Handshake.{HandshakeResult}
use elevpn.Client.Bypass.{build_bypass_cidrs}

-- The address of the tunnel with "/32".
abbrev pub tunnel_cidr : Addr → CidrText
tunnel_cidr invalid = malformed
tunnel_cidr (v4 a) = cidr4 (be a) 32
tunnel_cidr (v6 a) = cidr6 (be a) 32

-- The route of the client. The gateway that the kernel gave is printed and read again.
unfoldable pub route_spec : ClientConfig → Bytes → DefaultRoute → Result (List Addr) → RouteSpec
route_spec cfg tun_name route_info ssh_ips = record {
  server_route_ip = cfg.server_route_ip;
  gateway = ip route_info.gateway;
  gateway_interface_name = route_info.interface_name;
  tunnel_interface_name = tun_name;
  bypass_cidrs = build_bypass_cidrs cfg.server_route_cidr ssh_ips;
}

-- The answers of the kernel are given: to the device in `Os`, and on routes in `RouteOps`.
module _ {K : Type 0} (os : Os) (interface_by_name : Bytes → Result InterfaceIndex)
    (ops : RouteOps K) (cfg : ClientConfig) (tun_name : Bytes) where
  unfoldable pub client_components :
      HandshakeResult → Result DefaultRoute → Result (List Addr) → Result (List (Component K))
  client_components result default_route ssh_ips =
      new_tun tun_name (tunnel_cidr result.tunnel_ip) result.mtu >>= λ device.
      default_route >>= λ route_info.
      new_route interface_by_name ops (route_spec cfg tun_name route_info ssh_ips) >>= λ route.
      ok (tun_component os device ∷ route ∷ [])

  abbrev pub apply_components : K → Result (List (Component K)) → Managed K
  apply_components k (err e) = record { components = []; host = k; result = err e }
  apply_components k (ok components) = apply_all components [] k

  -- `Run` up to the start of the session.
  unfoldable pub client_setup :
      HandshakeResult → Result DefaultRoute → Result (List Addr) → K → Managed K
  client_setup result default_route ssh_ips k =
      apply_components k (client_components result default_route ssh_ips)
