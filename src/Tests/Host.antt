-- ===== src/Tests/Host.antt =====
-- The properties of the host's set-up at concrete inputs.
use elevpn.Prelude.{
  ◌≡◌, refl, none, some, List, [], ◌∷◌, bytes_eq, arith, list_beq, if◌then◌else◌, external, Result,
  ok, err, sentinel, canceled,
}
use elevpn.Prelude.Maps.{lookup, insert}
use elevpn.Bytes.{Bytes, put_be, be}
use elevpn.Net.{malformed, cidr4}
use elevpn.Protocol.Payload.{Addr, v4}
use elevpn.Netlink.DefaultRoute.{DefaultRoute}
use elevpn.Tun.Host.{Device, Os, ◌>>=◌, with_socket}
use elevpn.Tun.Device.{
  Tun, new_tun, create, opened_tun, set_interface, set_file, set_mtu, interface_ioctl,
  set_ipv4_cidr, address_ioctl, up, tun_apply,
}
use elevpn.Tun.Device.Cleaned.{Cleaned}
use elevpn.Tun.Poll.{interrupted, ready, read_context}
use elevpn.Tun.Poll.Ready.{IsReadable, read_context_ready}
use elevpn.Vpn.Manager.{apply_all, after_apply}
use elevpn.Vpn.Route.{
  ip, RouteSpec, InterfaceIndex, index, unresolved, resolve, resolve_bypass, bypass_ip, route_apply,
  apply_resolved, add_host_routes, after_add, after_replace, new_route, validate,
}
use elevpn.Vpn.Route.Calls.{RouteCall, replace_default, asking}
use elevpn.Vpn.Route.Ran.{RanOrNot, route_apply-Ran}
use elevpn.Client.Config.{ClientConfig, normalize_client, host_cidr}
use elevpn.Client.Handshake.{HandshakeResult}
use elevpn.Client.Bypass.{build_bypass_cidrs, detect_ssh_client_cidrs, detect_loop}
use elevpn.Client.Setup.{route_spec, client_components, client_setup}
use elevpn.Client.Setup.Calls.{SetUp, client_setup_calls}
use elevpn.Client.Setup.Bypassed.{PastTunnel, client_bypasses_server}
use elevpn.Server.Config.{ServerConfig}
use elevpn.Server.Setup.{server_setup}
use elevpn.Server.Setup.Outcome.{HostCall, add_table, forward_calls, table_calls, ServerSetUp}
use elevpn.Server.Setup.Calls.{server_setup_calls}
use elevpn.Tests.Protocol.{toy_cipher}

abbrev tun_name : Bytes
tun_name = b't' ∷ b'u' ∷ b'n' ∷ []

abbrev interfaces : Bytes → Result InterfaceIndex
interfaces name = if list_beq name (b'e' ∷ b't' ∷ b'h' ∷ []) then ok (index 2) else ok (index 7)

abbrev eth : Bytes
eth = b'e' ∷ b't' ∷ b'h' ∷ []

-- 203.0.113.5, 192.168.0.1 and an SSH client at 198.51.100.7.
abbrev server : Bytes
server = 203 ∷ 0 ∷ 113 ∷ 5 ∷ []

abbrev gateway : Bytes
gateway = 192 ∷ 168 ∷ 0 ∷ 1 ∷ []

abbrev ssh_client : Bytes
ssh_client = 198 ∷ 51 ∷ 100 ∷ 7 ∷ []

abbrev given : ClientConfig
given = record {
  server_endpoint = ok (ip server);
  server_route_ip = ip [];
  server_route_cidr = malformed;
  psk = 1 ∷ 2 ∷ [];
  auth_key = [];
}

abbrev normal : ClientConfig
normal = record {
  server_endpoint = ok (ip server);
  server_route_ip = ip server;
  server_route_cidr = host_cidr server;
  psk = 1 ∷ 2 ∷ [];
  auth_key = 1 ∷ 2 ∷ [];
}

given-normal : normalize_client given ≡ ok normal
unfolding normalize_client be
given-normal = refl

abbrev route_info : DefaultRoute
route_info = record { gateway = gateway; interface_name = eth; interface_index = 2 }

abbrev ssh_ips : Result (List Addr)
ssh_ips = ok (v4 ssh_client ∷ v4 ssh_client ∷ [])

abbrev client_route : RouteSpec
client_route = route_spec normal tun_name route_info ssh_ips

-- A kernel that refuses to make the tunnel the default route, and one that refuses nothing.
abbrev no_default : List RouteCall → RouteCall → Result (Unit {0})
no_default k (replace_default i) = err external
no_default k _ = ok tt

abbrev willing : List RouteCall → RouteCall → Result (Unit {0})
willing k c = ok tt

abbrev answers : Os
answers = record {
  open_tun = ok 9;
  actual_name = tun_name;
  new_ifreq = λ name. ok tt;
  set_inet4_addr = λ a. ok tt;
  socket = λ purpose. ok 10;
  ioctl = λ request. ok 0;
  close_file = λ fd. ok tt;
}

abbrev shaken : HandshakeResult
shaken = record {
  peer_id = 1;
  tunnel_ip = v4 (10 ∷ 8 ∷ 0 ∷ 2 ∷ []);
  mtu = 1436;
  cipher = toy_cipher;
  client_sequence = 1;
  server_replay_window = record { highest = 1; bitmap = 1 };
}

-- The route to the server is added and deleted again.
client_setup_calls_example :
    let m =
      client_setup answers interfaces
        (asking no_default)
        normal
        tun_name
        shaken
        (ok route_info)
        ssh_ips
        [] in
    SetUp no_default answers interfaces normal tun_name ssh_ips [] (ok route_info) m m.result
client_setup_calls_example =
    client_setup_calls no_default answers interfaces normal tun_name ssh_ips [] shaken
      (ok route_info)

route_apply-Ran_example :
    RanOrNot no_default [] interfaces client_route
      (route_apply interfaces (asking no_default) client_route unresolved [])
      (resolve interfaces (asking no_default) client_route unresolved)
route_apply-Ran_example = route_apply-Ran no_default [] interfaces client_route unresolved

client_set_up :
    (client_setup answers interfaces
      (asking willing)
      normal
      tun_name
      shaken
      (ok route_info)
      ssh_ips
      []).result
    ≡ ok tt
unfolding client_setup client_components new_tun new_route validate apply_all after_apply tun_apply
    route_apply apply_resolved add_host_routes after_add after_replace resolve resolve_bypass
    bypass_ip route_spec build_bypass_cidrs detect_ssh_client_cidrs detect_loop put_be be lookup
    insert ◌>>=◌ create opened_tun set_interface set_file set_mtu with_socket interface_ioctl
    set_ipv4_cidr address_ioctl up
client_set_up = refl

client_bypasses_server_example :
    let m =
      client_setup answers interfaces
        (asking willing)
        normal
        tun_name
        shaken
        (ok route_info)
        ssh_ips
        [] in
    PastTunnel willing answers interfaces (ip server) tun_name [] (ok route_info) m
client_bypasses_server_example =
    client_bypasses_server willing answers interfaces (ip server) tun_name [] given normal shaken
      (ok route_info) ssh_ips refl (omega arith) given-normal client_set_up

abbrev server_config : ServerConfig
server_config = record {
  tun_addr_cidr = cidr4 168296449 24;
  vpn_network_cidr = cidr4 168296448 24;
  psk = 1 ∷ [];
  auth_key = 1 ∷ [];
}

-- A kernel that refuses the table, and reads forwarding as "0".
abbrev no_table : List HostCall → HostCall → Result (Unit {0})
no_table k (add_table c) = err external
no_table k _ = ok tt

abbrev read_off : List HostCall → Result Bytes
read_off k = ok (b'0' ∷ 10 ∷ [])

server_setup_calls_example :
    let m =
      server_setup answers
        (forward_calls no_table read_off)
        (table_calls no_table read_off)
        server_config
        tun_name
        (ok route_info)
        [] in
    ServerSetUp no_table read_off server_config [] (ok route_info) m m.result
server_setup_calls_example =
    server_setup_calls no_table read_off answers server_config tun_name [] (ok route_info)

abbrev tun : Tun
tun = record { name = tun_name; cidr = cidr4 168296450 32; mtu = 1436 }

abbrev fresh : Device
fresh = record { f = none; actual_name = []; opened = 3 ∷ []; ioctls = [] }

readable : IsReadable 1
readable = record { has_input = λ e. absurd (omega arith); is_valid = refl; no_error = refl }

read_context_ready_example :
    (read_context (ok 8) (ok (1 ∷ 2 ∷ [])) (some 9) (interrupted ∷ ready 0 0 ∷ ready 1 1 ∷ [])
      ≡ some (err (sentinel canceled)))
    × (read_context (ok 8) (ok (1 ∷ 2 ∷ [])) (some 9) (interrupted ∷ ready 0 0 ∷ ready 0 1 ∷ [])
        ≡ some (ok (1 ∷ 2 ∷ [])))
read_context_ready_example =
    read_context_ready (ok 8) (ok (1 ∷ 2 ∷ [])) 9 1 1 (interrupted ∷ ready 0 0 ∷ []) []
      (tt, ((refl, refl), tt)) readable
