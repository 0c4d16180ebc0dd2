-- ===== src/Tests/Server.antt =====
-- The properties of the server at concrete inputs: a network of four addresses, so of one client.
use elevpn.Prelude.{
  ℕ, ◌+◌, ◌-◌, ◌≤◌, ◌<◌, ◌≡◌, ◌↔◌, refl, none, [], ◌∷◌, ◌++◌, length, replicate, arith, nat_eq,
  bytes_eq, ok,
}
use elevpn.Prelude.Maps.{lookup, insert}
use elevpn.Prelude.Keys.{KeysDistinct}
use elevpn.Bytes.{Bytes, put_be, be}
use elevpn.Net.{UdpAddr, addr_eq, CidrText, malformed, cidr4}
use elevpn.Protocol.Payload.{v4}
use elevpn.Server.PeerStore.{PeerStore, new_peer_store, delete_expired}
use elevpn.Server.PeerStore.Invariant.{IsStore, new_peer_store-IsStore}
use elevpn.Server.PeerStore.Registration.{registered, registered-IsStore}
use elevpn.Server.PeerStore.Expiry.Loop.{survivor, delete_expired-left}
use elevpn.Server.Config.{ServerConfig, normalize}
use elevpn.Server.Config.Normal.{normal_config, normalize-ok_iff}
use elevpn.Server.Allocation.{allocate_tunnel_ip, valid_ip_range}
use elevpn.Server.Allocation.Range.{
  base, size, allocate_tunnel_ip-ok_iff, allocate_tunnel_ip_injective,
}
use elevpn.Server.Ipv4.{extract_ipv4_dst}
use elevpn.Server.Ipv4.Accepted.{IsIpv4, extract_ipv4_dst-ok_iff}
use elevpn.Tests.Handshakes.{client_random}

-- 10.8.0.0/30.
abbrev small_network : CidrText
small_network = cidr4 168296448 30

abbrev pub config : ServerConfig
config = record {
  tun_addr_cidr = malformed;
  vpn_network_cidr = small_network;
  psk = 1 ∷ 2 ∷ [];
  auth_key = [];
}

normalize-ok_iff_example : (normalize config ≡ ok (normal_config config 168296448 30)) ↔ (
    (address : ℕ) × (prefix : ℕ) × (small_network ≡ cidr4 address prefix)
    × (prefix ≤ 30)
    × (0 < length config.psk)
    × (normal_config config 168296448 30 ≡ normal_config config address prefix))
normalize-ok_iff_example = normalize-ok_iff config (normal_config config 168296448 30) (omega arith)

abbrev pub first_ip : Bytes
first_ip = 10 ∷ 8 ∷ 0 ∷ 2 ∷ []

pub first_ip_given : allocate_tunnel_ip small_network 1 ≡ ok (v4 first_ip)
unfolding allocate_tunnel_ip valid_ip_range be put_be
first_ip_given = refl

allocate_tunnel_ip-ok_iff_example :
    (allocate_tunnel_ip small_network 1 ≡ ok (v4 first_ip))
    ↔ ((0 < 1) × (1 ≤ size 30 - 3) × (v4 first_ip ≡ v4 (put_be 4 (base 168296448 30 + 1 + 1))))
allocate_tunnel_ip-ok_iff_example =
    allocate_tunnel_ip-ok_iff 168296448 30 (omega arith) (omega arith) 1 (v4 first_ip)

allocate_tunnel_ip_injective_example : ◌≡◌ {A = ℕ} 1 1
allocate_tunnel_ip_injective_example =
    allocate_tunnel_ip_injective 168296448 30 (omega arith) (omega arith) 1 1 (v4 first_ip)
      first_ip_given first_ip_given

-- A header of 20 bytes, to 10.8.0.2.
abbrev pub ipv4_packet : Bytes
ipv4_packet = 69 ∷ 0 ∷ 0 ∷ 20 ∷ (replicate 12 0 ++ first_ip)

extract_ipv4_dst-ok_iff_example :
    (extract_ipv4_dst ipv4_packet ≡ ok (v4 first_ip))
    ↔ (IsIpv4 ipv4_packet × (v4 first_ip ≡ v4 first_ip))
extract_ipv4_dst-ok_iff_example = extract_ipv4_dst-ok_iff ipv4_packet (v4 first_ip)

abbrev pub client_addr : UdpAddr
client_addr = record { ip = 192 ∷ 0 ∷ 2 ∷ 1 ∷ []; port = 5000 }

abbrev pub one_peer : PeerStore
one_peer = registered new_peer_store client_addr client_random 100

one_peer-IsStore : IsStore one_peer
one_peer-IsStore =
    registered-IsStore new_peer_store client_addr client_random 100 new_peer_store-IsStore
      lookup_empty (omega arith)
  where
    lookup_empty : lookup client_random new_peer_store.by_client_random ≡ none
    lookup_empty = unfold lookup in refl

delete_expired-left_example :
    ((id : ℕ)
      → lookup id (delete_expired one_peer 200 30).0.by_id
        ≡ survivor 200 30 one_peer.heap (lookup id one_peer.by_id))
    × ((delete_expired one_peer 200 30).0.heap ≡ one_peer.heap)
    × ((delete_expired one_peer 200 30).0.next_id ≡ one_peer.next_id)
    × IsStore (delete_expired one_peer 200 30).0
    × KeysDistinct (delete_expired one_peer 200 30).0.by_id
    × ((delete_expired one_peer 200 30).1 + length (delete_expired one_peer 200 30).0.by_id
        ≡ length one_peer.by_id)
delete_expired-left_example =
    delete_expired-left 200 30 one_peer one_peer-IsStore (unfold insert in (tt, tt))
