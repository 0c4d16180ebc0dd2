-- ===== src/Client/Setup/Bypassed.antt =====
-- internal/client/client.go and route.go with internal/vpn/route.go: the server is reached past the tunnel.
use elevpn.Prelude.{ℕ, ◌≡◌, refl, ap, subst, ◌∙◌, some, List, [], ◌∷◌, ◌++◌, Result, ok, ok-ne-err}
use elevpn.Bytes.{Bytes}
use elevpn.Net.{CidrText}
use elevpn.Protocol.Payload.{Addr}
use elevpn.Netlink.DefaultRoute.{DefaultRoute}
use elevpn.Vpn.Route.{IpText, ip, parse_ip4, Resolved, InterfaceIndex, index, unresolved}
use elevpn.Vpn.Route.Calls.{
  RouteCall, add, replace_default, adds, asking, AllDone, Applied, all_applied, add_refused,
  replace_refused,
}
use elevpn.Vpn.Manager.{Managed}
use elevpn.Tun.Host.{Os}
use elevpn.Client.Handshake.{HandshakeResult}
use elevpn.Client.Setup.{client_setup}
use elevpn.Client.Setup.Calls.{SetUp, client_setup_calls}
use elevpn.Client.Config.{ClientConfig, normalize_client}
use elevpn.Client.Bypass.{build_bypass_cidrs}
use elevpn.Client.Setup.{route_spec}
use elevpn.Client.Setup.Found.{
  IsIpText, IsIp4, parse_ip4-IsIp4, to_server, normal_server, server_first, resolve_first,
}

module _ (answer : List RouteCall → RouteCall → Result (Unit {0})) (os : Os)
    (interface_by_name : Bytes → Result InterfaceIndex) (host : IpText) (tun_name : Bytes)
    (k : List RouteCall) where
  -- The route to the server's address, by the gateway and not by the tunnel, is the first call; the call that makes the
  -- tunnel the default route is the last; all calls were answered by nil.
  pub PastTunnel : Result DefaultRoute → Managed (List RouteCall) → Type 0
  PastTunnel default_route m =
      (info : DefaultRoute) × (server : Bytes) × (gw : Bytes) × (i : ℕ) × (j : ℕ) × (more : List
        Bytes)
      × (default_route ≡ ok info)
      × (parse_ip4 host ≡ some server)
      × (parse_ip4 (ip info.gateway) ≡ some gw)
      × (interface_by_name info.interface_name ≡ ok (index i))
      × (interface_by_name tun_name ≡ ok (index j))
      × (let calls =
            add server gw i ∷ (adds (to_server gw i j []) more ++ (replace_default j ∷ [])) in
          (m.host ≡ k ++ calls) × AllDone answer k calls)

  adds_same :
      (gw : Bytes) (i j : ℕ) (all ips : List Bytes)
      → adds (to_server gw i j all) ips ≡ adds (to_server gw i j []) ips
  adds_same gw i j all [] = refl
  adds_same gw i j all (a ∷ ips) =
      ap (λ (t : List RouteCall). add a gw i ∷ t) (adds_same gw i j all ips)

  -- The calls of an `Apply` that gave nil.
  calls_if_ok :
      (r : Resolved) (calls : List RouteCall)
      → Applied answer k r calls (ok tt)
      → (calls ≡ adds r r.bypass_ips ++ (replace_default r.tunnel_interface_idx ∷ []))
        × AllDone answer k calls
  calls_if_ok r calls (all_applied e all _) = (e, all)
  calls_if_ok r calls (add_refused _ _ _ _ _ _ _ _ _ h) = absurd (ok-ne-err h)
  calls_if_ok r calls (replace_refused _ _ _ _ _ h) = absurd (ok-ne-err h)

  -- Whatever the kernel answers and says of SSH connections, for a server of an IP of bytes and an accepted configuration: when the
  -- set-up of `Run` gives nil, its first call has added a host route to the server's address, by the gateway and the
  -- interface of the default route that it found; further host routes may come after it, by the same gateway and interface, and the call that
  -- makes the tunnel the default route is the last, and no call was refused.
  pub client_bypasses_server :
      (c cfg : ClientConfig) (result : HandshakeResult) (default_route : Result DefaultRoute)
      (ssh_ips : Result (List Addr))
      → c.server_endpoint ≡ ok host
      → IsIpText host
      → normalize_client c ≡ ok cfg
      → let m =
          client_setup os interface_by_name
            (asking answer)
            cfg
            tun_name
            result
            default_route
            ssh_ips
            k in
        m.result ≡ ok tt → PastTunnel default_route m
  unfolding PastTunnel SetUp route_spec
  client_bypasses_server c cfg result default_route ssh_ips endpoint valid normal done =
      let m =
        client_setup os interface_by_name (asking answer) cfg tun_name result default_route ssh_ips
          k in
      let (info, r, calls, given, resolves, same, ran, _) =
        subst (SetUp answer os interface_by_name cfg tun_name ssh_ips k default_route m) done (
          client_setup_calls answer os interface_by_name cfg tun_name ssh_ips k result
            default_route) in
      let (a, read, cidr) = normal_server c cfg host endpoint normal in
      let (four, bytes) : IsIp4 (some a) = subst IsIp4 read (parse_ip4-IsIp4 host valid) in
      let (rest, first) = server_first a ssh_ips in
      let all = ap (λ (s : CidrText). build_bypass_cidrs s ssh_ips) cidr ∙ first in
      let (gw, i, j, more, gateway_read, at_gateway, at_tunnel, is_r) =
        resolve_first interface_by_name (asking answer) _ unresolved r a rest all four bytes
          resolves in
      let (these, all_done) = calls_if_ok r calls ran in
      let listed =
        these
        ∙ ap
            (λ (x : Resolved). adds x x.bypass_ips ++ (replace_default x.tunnel_interface_idx ∷ []))
            is_r
        ∙ ap (λ (t : List RouteCall). add a gw i ∷ (t ++ (replace_default j ∷ [])))
            (adds_same gw i j (a ∷ more) more) in
      (
        info,
        a,
        gw,
        i,
        j,
        more,
        given,
        read,
        gateway_read,
        at_gateway,
        at_tunnel,
        (
          same ∙ ap (λ (t : List RouteCall). k ++ t) listed,
          subst (AllDone answer k) listed all_done,
        ),
      )
