-- ===== src/Client/Handshake/Agreed.antt =====
-- internal/client/handshake.go with internal/server/handler.go: a client and a server that talk to each other.
use elevpn.Prelude.{
  ℕ, ◌^◌, ◌<◌, ◌≤◌, ◌≡◌, refl, sym, ap, ◌∙◌, if◌then◌else◌, none, some, [], ◌∷◌, ◌++◌, length,
  take_long, list_beq, list_beq_iff, arith, nat_eq, bytes_eq, external, Result, ok, err, >>=-eq-ok,
  ok-injective,
}
use elevpn.Prelude.Maps.{lookup}
use elevpn.Bytes.{Bytes}
use elevpn.Net.{UdpAddr, addr_eq}
use elevpn.Protocol.Message.{
  Message, new_message, message_type_aloha, protocol_version, default_tunnel_mtu,
}
use elevpn.Protocol.Payload.{v4}
use elevpn.Protocol.Aead.{Crypto, IsCrypto, Cipher, CipherSuite, new_aloha_cipher, new_peer_cipher}
use elevpn.Protocol.Handshake.{encode_aloha_packet, decode_aloha_packet}
use elevpn.Protocol.Handshake.Aloha.{IsAloha, decode_aloha-encode}
use elevpn.Protocol.Handshake.Welcome.Received.{decode_welcome_packet_lem}
use elevpn.Server.Allocation.{allocate_tunnel_ip}
use elevpn.Server.Config.{ServerConfig}
use elevpn.Server.Action.{World, write_udp}
use elevpn.Server.Handlers.{Env, Conn, handle_aloha}
use elevpn.Server.PeerStore.{deref}
use elevpn.Server.Handlers.Keyed.{handle_aloha-Keyed}
use elevpn.Server.Handlers.Welcomed.{handle_aloha_welcomed}
use elevpn.Client.Handshake.{read_welcome, handshake}
use elevpn.Client.Handshake.Answered.{read_welcome_answered}

-- The message of the client, and as it arrives.
abbrev pub client_aloha : Message
client_aloha = new_message message_type_aloha 0 1 []

abbrev pub aloha_arrived : Message
aloha_arrived = record client_aloha {
  header = record client_aloha.header { version = protocol_version };
}

client_aloha-IsAloha : IsAloha client_aloha
client_aloha-IsAloha = record {
  sendable = record {
    header_ok = record {
      version_byte = omega arith;
      type_byte = omega arith;
      flags_byte = omega arith;
      reserved_byte = omega arith;
      peer_id_u64 = omega arith;
      sequence_u64 = omega arith;
    };
    type_ok = refl;
    payload_ok = omega arith;
  };
  type_aloha = refl;
  no_peer = refl;
  numbered = omega arith;
}

-- A connection that takes one packet.
abbrev pub takes_only : Bytes → Bytes → Result ℕ
takes_only packet bs = if list_beq bs packet then ok (length bs) else err external

module _ (crypto : Crypto) (good : IsCrypto crypto) (cs : CipherSuite) where
  -- The ALOHA that the client sends, and what the server reads in it.
  aloha_sent :
      (r : Bytes)
      → length r ≡ 16
      → (c : Cipher) × (aloha : Bytes) × (new_aloha_cipher crypto cs r ≡ ok c)
        × (encode_aloha_packet (some c) (some client_aloha) r ≡ ok aloha)
        × (decode_aloha_packet crypto cs aloha ≡ ok (aloha_arrived, r))
  aloha_sent r sixteen =
      let (c, made, rest) =
        >>=-eq-ok (new_aloha_cipher crypto cs r) _
          (decode_aloha-encode crypto good cs client_aloha r client_aloha-IsAloha sixteen) in
      let (aloha, sealed, opens) =
        >>=-eq-ok (encode_aloha_packet (some c) (some client_aloha) r) _ rest in
      (c, aloha, made, sealed, opens)

  handshake_lem :
      (r aloha packet : Bytes) (c : Cipher)
      → new_aloha_cipher crypto cs r ≡ ok c
      → encode_aloha_packet (some c) (some client_aloha) r ≡ ok aloha
      → length packet ≤ 1488
      → handshake crypto cs (ok r) (takes_only aloha) (ok packet) ≡ read_welcome crypto cs r packet
  unfolding handshake
  handshake_lem r aloha packet c made sealed short =
      rw made (rw sealed (rw ((list_beq_iff aloha aloha).1 refl, take_long 1488 packet short) refl))

  -- With crypto packages that do what they document, take a client and a server with the same pre-shared key, a client
  -- random of 16 bytes that no peer of the server has, a random source of the server that gives 16 bytes, and a
  -- configured network with a free IPv4 address for the next id, which is not 0 and fits in a uint64. The packet
  -- that the client writes is an ALOHA that the server decodes; `handleAloha` answers by one datagram to
  -- the sender; and `handshake`, when it reads that datagram, gives the client that id, that address and
  -- the MTU of the tunnel. The client's cipher is that of the server's new peer.
  pub handshake-handle_aloha :
      (cfg : ServerConfig) (env : Env) (w : World) (addr : UdpAddr) (conn : Conn)
      (r server_random ip : Bytes)
      → length r ≡ 16
      → env.random ≡ ok server_random
      → length server_random ≡ 16
      → lookup r w.peers.by_client_random ≡ none
      → allocate_tunnel_ip cfg.vpn_network_cidr w.peers.next_id ≡ ok (v4 ip)
      → lookup (v4 ip) w.peers.by_tunnel_ip ≡ none
      → length ip ≡ 4
      → 0 < w.peers.next_id
      → w.peers.next_id < 2 ^ 64
      → (aloha packet : Bytes) × (c : Cipher) × (decode_aloha_packet crypto cs aloha
          ≡ ok (aloha_arrived, r))
        × ((handle_aloha crypto cfg cs env (some conn) (some addr) aloha_arrived r w).0.calls
            ≡ w.calls ++ (write_udp packet (some addr) ∷ []))
        × ((deref
              (handle_aloha crypto cfg cs env
                (some conn)
                (some addr)
                aloha_arrived
                r
                w).0.peers.heap
              (length w.peers.heap)).cipher
            ≡ some c)
        × (handshake crypto cs (ok r) (takes_only aloha) (ok packet)
            ≡ ok (record {
              peer_id = w.peers.next_id;
              tunnel_ip = v4 ip;
              mtu = default_tunnel_mtu;
              cipher = c;
              client_sequence = 1;
              server_replay_window = record { highest = 1; bitmap = 1 };
            }))
  handshake-handle_aloha cfg env w addr conn r server_random ip sixteen random len fresh given free
        four pos fits =
      let (c0, aloha, made, sealed, arrived) = aloha_sent r sixteen in
      let (packet, m, calls, decoded, id, one, payload) =
        handle_aloha_welcomed crypto good cfg cs env w addr aloha_arrived r server_random
          (omega arith) random ip conn fresh given free four pos fits len in
      let (type, short) =
        decode_welcome_packet_lem crypto good cs r packet m server_random decoded in
      let (c, peer_cipher, answered) =
        read_welcome_answered crypto good cs r server_random packet m _ decoded type one payload in
      let same_id = ap (λ (i : ℕ). new_peer_cipher crypto cs i r server_random) (sym id) in
      let (_, derived, keyed) =
        handle_aloha-Keyed crypto good cfg cs env w addr conn aloha_arrived r server_random (v4 ip)
          (omega arith) random fresh given free in
      (
        aloha,
        packet,
        c,
        arrived,
        calls,
        keyed ∙ ap some (ok-injective (sym derived ∙ same_id ∙ peer_cipher)),
        handshake_lem r aloha packet c0 made sealed short
            ∙ answered
            ∙ ap
                (λ (i : ℕ). ok (record {
                  peer_id = i;
                  tunnel_ip = v4 ip;
                  mtu = default_tunnel_mtu;
                  cipher = c;
                  client_sequence = 1;
                  server_replay_window = record { highest = 1; bitmap = 1 };
                }))
                id,
      )
