-- ===== src/Client/Bypass.antt =====
-- internal/client/route.go: the CIDRs that are routed past the tunnel. A CIDR is written as what `net.ParseCIDR`
-- reads in it, and the map of those that were seen has the addresses as its keys.
use elevpn.Prelude.{
  Bool, true, false, if◌then◌else◌, Option, none, some, List, [], ◌∷◌, ◌++◌, Result, ok, err,
  bytes_eq,
}
use elevpn.Prelude.Maps.{Map, lookup, insert}
use elevpn.Bytes.{Bytes}
use elevpn.Net.{CidrText}
use elevpn.Protocol.Payload.{Addr, invalid, v4, v6}
use elevpn.Client.Config.{host_cidr}

abbrev pub is_true : Option Bool → Bool
is_true none = false
is_true (some b) = b

-- The loop over the remote addresses.
unfoldable pub detect_loop : List Addr → Map Bytes Bool → List CidrText → List CidrText × Bool
detect_loop [] seen result = (result, true)
detect_loop (v4 a ∷ ips) seen result =
    let old = is_true (lookup a seen) in
    detect_loop ips (if old then seen else insert a true seen)
      (if old then result else result ++ (host_cidr a ∷ []))
detect_loop (v6 a ∷ ips) seen result = ([], false)
detect_loop (invalid ∷ ips) seen result = ([], false)

-- The result of `GetEstablishedTCPRemoteIPsByLocalPort` is given.
unfoldable pub detect_ssh_client_cidrs : Result (List Addr) → List CidrText × Bool
detect_ssh_client_cidrs (err e) = ([], false)
detect_ssh_client_cidrs (ok ips) = detect_loop ips [] []

unfoldable pub build_bypass_cidrs : CidrText → Result (List Addr) → List CidrText
build_bypass_cidrs server_route_cidr remote_ips =
    let (ssh, found) = detect_ssh_client_cidrs remote_ips in
    if found then server_route_cidr ∷ ssh else server_route_cidr ∷ []
