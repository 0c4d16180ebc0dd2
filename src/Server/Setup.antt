-- ===== src/Server/Setup.antt =====
-- internal/server/server.go: what `Run` sets up on the host before it listens.
pub mod Outcome
pub mod Calls
use elevpn.Prelude.{List, [], ◌∷◌, Result, ok, err, ◌>>=◌}
use elevpn.Bytes.{Bytes}
use elevpn.Protocol.Message.{default_tunnel_mtu}
use elevpn.Netlink.DefaultRoute.{DefaultRoute}
use elevpn.Tun.Host.{Os}
use elevpn.Tun.Device.{new_tun}
use elevpn.Tun.Component.{tun_component}
use elevpn.Vpn.Manager.{Component, Managed, apply_all}
use elevpn.Vpn.Forward.{ForwardFile, ip_forward}
use elevpn.Vpn.Masquerade.{MasqueradeOps, MasqueradeSpec, masquerade}
use elevpn.Server.Config.{ServerConfig}

-- "vpnnat" and "vpn-postrouting".
abbrev pub server_table : Bytes
server_table = b'v' ∷ b'p' ∷ b'n' ∷ b'n' ∷ b'a' ∷ b't' ∷ []

abbrev pub server_chain : Bytes
server_chain =
    b'v' ∷ b'p' ∷ b'n' ∷ b'-' ∷ b'p' ∷ b'o' ∷ b's' ∷ b't' ∷ b'r' ∷ b'o' ∷ b'u' ∷ b't' ∷ b'i' ∷ b'n'
    ∷ b'g' ∷ []

unfoldable pub masquerade_spec : ServerConfig → DefaultRoute → MasqueradeSpec
masquerade_spec cfg route_info = record {
  table_name = server_table;
  chain_name = server_chain;
  src_cidr = cfg.vpn_network_cidr;
  out_interface = route_info.interface_name;
}

-- The answers of the kernel are given: to the device in `Os`, and on the rest of the host by its operations.
module _ {K : Type 0} (os : Os) (file : ForwardFile K) (ops : MasqueradeOps K) (cfg : ServerConfig)
    (tun_name : Bytes) where
  unfoldable pub server_components : Result DefaultRoute → Result (List (Component K))
  server_components default_route = default_route >>= λ route_info.
      new_tun tun_name cfg.tun_addr_cidr default_tunnel_mtu >>= λ device. ok (
        tun_component os device
        ∷ ip_forward file
        ∷ masquerade ops (masquerade_spec cfg route_info)
        ∷ [])

  abbrev pub apply_server_components : K → Result (List (Component K)) → Managed K
  apply_server_components k (err e) = record { components = []; host = k; result = err e }
  apply_server_components k (ok components) = apply_all components [] k

  -- `Run` up to `ListenUDP`.
  unfoldable pub server_setup : Result DefaultRoute → K → Managed K
  server_setup default_route k = apply_server_components k (server_components default_route)
