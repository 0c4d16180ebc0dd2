-- ===== src/Server/Config.antt =====
-- internal/server/server.go: `ServerConfig`, `normalize` and `New`.
-- The names of the listen address and of the TUN device are read by the packages net and tun only.
pub mod Normal
use elevpn.Prelude.{
  ℕ, ◌+◌, ◌%◌, ◌^◌, Bool, not, ltb, ◌==◌, Option, none, some, [], length, Error, fault,
  not_ipv4_network, network_too_small, psk_empty, Result, ok, err, ◌>>=◌, ◌>>◌, reject, hide,
  hiding, wrapping,
}
use elevpn.Bytes.{Bytes, be}
use elevpn.Net.{CidrText, cidr4, IpNet, to4, parse_cidr}
use elevpn.Protocol.Aead.{Crypto, CipherSuite, new_cipher_suite}
use elevpn.Server.PeerStore.{PeerStore, new_peer_store}

-- `TunAddrCIDR` is what `fmt.Sprintf("%s/%d", ...)` writes, as `ParseCIDR` reads it.
pub record ServerConfig : Type 0 where
  pub tun_addr_cidr : CidrText
  pub vpn_network_cidr : CidrText
  pub psk : Bytes
  pub auth_key : Bytes

-- A nil slice has no bytes.
abbrev pub or_empty : Option Bytes → Bytes
or_empty none = []
or_empty (some b) = b

unfoldable pub normalize : ServerConfig → Result ServerConfig
normalize s = do
  ipnet ← parse_cidr s.vpn_network_cidr
  reject (not (ipnet.bits == 32)) (fault not_ipv4_network)
  reject (ltb 30 ipnet.ones) (fault network_too_small)
  let ip4 = or_empty (to4 ipnet.ip)
  let network_addr = be ip4
  let server_addr = (network_addr + 1) % 2 ^ 32
  reject (length s.psk == 0) (fault psk_empty)
  ok (record s { tun_addr_cidr = cidr4 server_addr ipnet.ones; auth_key = s.psk })

pub record Server : Type 0 where
  pub cfg : ServerConfig
  pub peers : PeerStore
  pub cipher_suite : CipherSuite

-- `New`: the error of `normalize` is printed by `%v`, that of `NewCipherSuite` wrapped by `%w`.
unfoldable pub new_server : Crypto → ServerConfig → Result Server
new_server crypto cfg = do
  normal ← hiding (normalize cfg)
  cipher_suite ← wrapping (new_cipher_suite crypto normal.auth_key)
  ok (record { cfg = normal; peers = new_peer_store; cipher_suite = cipher_suite })
