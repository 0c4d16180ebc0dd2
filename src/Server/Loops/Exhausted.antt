-- ===== src/Server/Loops/Exhausted.antt =====
-- internal/server/server.go, `udpToTun`: what it returns on an ALOHA when no address is left.
use elevpn.Prelude.{
  ℕ, ◌-◌, ◌^◌, ◌<◌, ◌≤◌, ◌≡◌, inr, sym, ap, ◌∙◌, true, ◌==◌, none, take, nat_eq, bytes_eq, Result,
  ok, err, wrap, wrapping, fault, invalid_ip_range, ok-ne-err, ok-injective, ==_iff,
}
use elevpn.Prelude.Maps.{lookup}
use elevpn.Bytes.{Bytes}
use elevpn.Net.{UdpAddr, cidr4}
use elevpn.Protocol.Message.{Message, message_type_aloha}
use elevpn.Protocol.Codec.{header_fields}
use elevpn.Protocol.Aead.{Crypto, IsCrypto, CipherSuite}
use elevpn.Protocol.Handshake.{decode_aloha_packet}
use elevpn.Protocol.Handshake.Aloha.Received.{decode_aloha_packet_lem}
use elevpn.Server.Allocation.{allocate_tunnel_ip}
use elevpn.Server.Allocation.Range.{size, refused}
use elevpn.Server.Config.{ServerConfig}
use elevpn.Server.Action.{World, attempt}
use elevpn.Server.Action.Kept.{bind_elim}
use elevpn.Server.Handlers.{Env, Conn, Tun}
use elevpn.Server.Handlers.Admission.{handle_aloha_exhausted}
use elevpn.Server.Loops.{aloha_round, udp_packet, udp_to_tun_round, udp_buffer_len}

module _ (crypto : Crypto) (good : IsCrypto crypto) (cfg : ServerConfig) (cs : CipherSuite)
    (env : Env) (conn : Conn) (tun : Tun) where
  -- What makes `udpToTun` return.
  Returns : World × Result (Unit {0}) → Type 0
  Returns x = x.1 ≡ err (wrap (fault invalid_ip_range))

  module _ (addr : UdpAddr) (msg : Message) (r server_random : Bytes) (w : World)
      (random : env.random ≡ ok server_random) (fresh : lookup r w.peers.by_client_random ≡ none)
      (none_left : allocate_tunnel_ip cfg.vpn_network_cidr w.peers.next_id
        ≡ err (fault invalid_ip_range)) where
    udp_packet-Returns :
        (buf : Bytes)
        → decode_aloha_packet crypto cs buf ≡ ok (msg, r)
        → Returns (udp_packet crypto cfg cs env conn tun buf addr w)
    unfolding udp_packet aloha_round attempt Returns
    udp_packet-Returns buf decodes =
        let (peeks, is_aloha, numbered) =
          decode_aloha_packet_lem crypto good cs buf msg r decodes in
        let test : ((header_fields buf).message_type == message_type_aloha) ≡ true =
          (==_iff (header_fields buf).message_type 1).1 is_aloha in
        rw (peeks, test)
          (rw decodes (
            ap wrapping (
              handle_aloha_exhausted crypto good cfg cs env w addr msg r server_random numbered
                random conn fresh none_left)))

  -- With crypto packages that do what they document and a random source that works, a datagram that the
  -- server decodes as an ALOHA of a random that no peer has makes `udpToTun` return the error that no address is
  -- left, when the network is an IPv4 network with a prefix up to 30 and the next id lies behind the ids that have
  -- an address in it, which are those up to the size of the network less 3.
  pub udp_to_tun_round_exhausted :
      (datagram : Bytes) (addr : UdpAddr) (msg : Message) (r server_random : Bytes)
      (address prefix : ℕ) (w : World)
      → env.random ≡ ok server_random
      → decode_aloha_packet crypto cs (take udp_buffer_len datagram) ≡ ok (msg, r)
      → lookup r w.peers.by_client_random ≡ none
      → cfg.vpn_network_cidr ≡ cidr4 address prefix
      → address < 2 ^ 32
      → prefix ≤ 30
      → size prefix - 3 < w.peers.next_id
      → (udp_to_tun_round crypto cfg cs env conn tun (ok (datagram, addr)) w).1
        ≡ err (wrap (fault invalid_ip_range))
  unfolding udp_to_tun_round Returns
  udp_to_tun_round_exhausted datagram addr msg r server_random address prefix w random decodes fresh
        network fits le behind =
      let none_left : allocate_tunnel_ip cfg.vpn_network_cidr w.peers.next_id
          ≡ err (fault invalid_ip_range) =
        rw network (refused address prefix fits le w.peers.next_id (inr behind)) in
      bind_elim Returns _ _ w
        (λ d got.
          let same : (datagram, addr) ≡ d = ok-injective got in
          udp_packet-Returns d.1 msg r server_random w random fresh none_left
            (take udp_buffer_len d.0)
            (ap (λ (x : Bytes × UdpAddr). decode_aloha_packet crypto cs (take udp_buffer_len x.0))
                (sym same)
              ∙ decodes))
        (λ e h. absurd (ok-ne-err h))
