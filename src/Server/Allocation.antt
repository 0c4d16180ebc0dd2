-- ===== src/Server/Allocation.antt =====
-- internal/server/handler.go: `allocateTunnelIP` and `validIPRange`.
pub mod Range
use elevpn.Prelude.{
  ℕ, ◌+◌, ◌-◌, ◌%◌, ◌^◌, Bool, true, false, not, ltb, ◌==◌, if◌then◌else◌, Option, none, some,
  Error, fault, not_ipv4, invalid_ip_range, Result, ok, err, ◌>>=◌, ◌>>◌, reject,
}
use elevpn.Bytes.{Bytes, put_be, be}
use elevpn.Net.{CidrText, IpNet, to4, parse_cidr}
use elevpn.Protocol.Payload.{Addr, v4, is4}

-- The prefix comes from `Mask.Size`, so it is not negative.
unfoldable pub valid_ip_range : ℕ → ℕ → Bool
valid_ip_range peer_id prefix =
    if peer_id == 0
    then false
    else if ltb 30 prefix
    then false
    else let host_bits = 32 - prefix in
      let total = 2 ^ host_bits in
      let max_peer_id = total - 3 in if ltb max_peer_id peer_id then false else true

-- `ipnet.IP.To4()`, where nil is an error.
abbrev pub need_ip4 : Option Bytes → Result Bytes
need_ip4 none = err (fault not_ipv4)
need_ip4 (some ip4) = ok ip4

-- The sum is one of uint32.
unfoldable pub allocate_tunnel_ip : CidrText → ℕ → Result Addr
allocate_tunnel_ip vpn_network_cidr peer_id = do
  ipnet ← parse_cidr vpn_network_cidr
  ip4 ← need_ip4 (to4 ipnet.ip)
  reject (not (valid_ip_range peer_id ipnet.ones)) (fault invalid_ip_range)
  let vpn_network_base = be ip4
  let tunnel_ip_uint = ((vpn_network_base + 1) % 2 ^ 32 + peer_id % 2 ^ 32) % 2 ^ 32
  let tunnel_ip = v4 (put_be 4 tunnel_ip_uint)
  reject (not (is4 tunnel_ip)) (fault not_ipv4)
  ok tunnel_ip
