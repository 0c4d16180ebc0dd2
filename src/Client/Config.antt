-- ===== src/Client/Config.antt =====
-- internal/client/client.go: `ClientConfig`, `normalize` and `New`. The endpoint is taken as what
-- `net.SplitHostPort` and `net.ParseIP` read in it. The listen address and the name of the TUN device are read
-- by the packages net and tun only.
use elevpn.Prelude.{
  ◌==◌, Option, none, some, length, fault, psk_empty, server_not_ipv4, Result, ok, err, ◌>>=◌, ◌>>◌,
  hiding, reject,
}
use elevpn.Bytes.{Bytes, be}
use elevpn.Net.{CidrText, cidr4}
use elevpn.Protocol.Aead.{Crypto, CipherSuite, new_cipher_suite}
use elevpn.Vpn.Route.{IpText, parse_ip4}

pub record ClientConfig : Type 0 where
  -- The host in the endpoint, or no host and port.
  pub server_endpoint : Result IpText
  pub server_route_ip : IpText
  pub server_route_cidr : CidrText
  pub psk : Bytes
  pub auth_key : Bytes

pub record Client : Type 0 where
  pub cfg : ClientConfig
  pub cipher_suite : CipherSuite

abbrev pub need_server_ip4 : Option Bytes → Result Bytes
need_server_ip4 none = err (fault server_not_ipv4)
need_server_ip4 (some a) = ok a

-- The CIDR is the text of the address with "/32", as `ParseCIDR` reads it.
abbrev pub host_cidr : Bytes → CidrText
host_cidr ip4 = cidr4 (be ip4) 32

unfoldable pub normalize_client : ClientConfig → Result ClientConfig
normalize_client c = do
  host ← hiding c.server_endpoint
  ip4 ← need_server_ip4 (parse_ip4 host)
  reject (length c.psk == 0) (fault psk_empty)
  ok (record c { server_route_ip = host; server_route_cidr = host_cidr ip4; auth_key = c.psk })

unfoldable pub new_client : Crypto → ClientConfig → Result Client
new_client crypto cfg = do
  normal ← normalize_client cfg
  cipher_suite ← new_cipher_suite crypto normal.auth_key
  ok (record { cfg = normal; cipher_suite = cipher_suite })
