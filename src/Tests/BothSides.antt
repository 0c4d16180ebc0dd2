-- ===== src/Tests/BothSides.antt =====
-- A client and a server that talk to each other, at concrete inputs.
use elevpn.Prelude.{◌≡◌, refl, none, some, [], ◌∷◌, ◌++◌, length, take, arith, nat_eq, bytes_eq, ok}
use elevpn.Prelude.Maps.{lookup, insert}
use elevpn.Bytes.{Bytes}
use elevpn.Net.{addr_eq}
use elevpn.Protocol.Message.{default_tunnel_mtu, max_payload_size}
use elevpn.Protocol.Payload.{v4}
use elevpn.Protocol.Aead.{Cipher}
use elevpn.Protocol.Handshake.{decode_aloha_packet}
use elevpn.Server.PeerStore.{deref, update, get_by_id}
use elevpn.Server.Action.{World, write_udp, write_tun}
use elevpn.Server.Handlers.{handle_aloha}
use elevpn.Protocol.ReplayWindow.{accept}
use elevpn.Server.Loops.{udp_to_tun_round}
use elevpn.Client.Session.{session_tun_to_udp_round}
use elevpn.Client.Session.Delivered.{IsPeerOf, session_tun_to_udp_round_delivered}
use elevpn.Server.Runs.{start}
use elevpn.Client.Handshake.{handshake}
use elevpn.Client.Handshake.Agreed.{aloha_arrived, takes_only, handshake-handle_aloha}
use elevpn.Tests.ToyCrypto.{toy_crypto, toy_crypto-IsCrypto, toy_aead-IsAead}
use elevpn.Tests.Handshakes.{client_random, server_random, suite}
use elevpn.Tests.Server.{config, first_ip, first_ip_given, ipv4_packet, client_addr, one_peer}
use elevpn.Tests.Protocol.{toy_cipher}
use elevpn.Tests.Client.{session}
use elevpn.Tests.ServerRuns.{env, conn}

handshake-handle_aloha_example :
    (aloha packet : Bytes) × (c : Cipher) × (decode_aloha_packet toy_crypto suite aloha
      ≡ ok (aloha_arrived, client_random))
    × ((handle_aloha toy_crypto config suite env
          (some conn)
          (some client_addr)
          aloha_arrived
          client_random
          start).0.calls
        ≡ [] ++ (write_udp packet (some client_addr) ∷ []))
    × ((deref
          (handle_aloha toy_crypto config suite env
            (some conn)
            (some client_addr)
            aloha_arrived
            client_random
            start).0.peers.heap
          0).cipher
        ≡ some c)
    × (handshake toy_crypto suite (ok client_random) (takes_only aloha) (ok packet)
        ≡ ok (record {
          peer_id = 1;
          tunnel_ip = v4 first_ip;
          mtu = default_tunnel_mtu;
          cipher = c;
          client_sequence = 1;
          server_replay_window = record { highest = 1; bitmap = 1 };
        }))
handshake-handle_aloha_example =
    handshake-handle_aloha toy_crypto toy_crypto-IsCrypto suite config env start client_addr conn
      client_random server_random first_ip refl refl refl (unfold lookup in refl) first_ip_given
      (unfold lookup in refl) refl (omega arith) (omega arith)

-- The server after it gave its one peer the cipher of the session.
abbrev with_cipher : World
with_cipher = record {
  peers = update one_peer 0 (λ x. record x { cipher = some toy_cipher });
  calls = [];
}

with_cipher-IsPeerOf : IsPeerOf with_cipher client_addr session 0
with_cipher-IsPeerOf = record {
  known = unfold get_by_id insert lookup in refl;
  same_cipher = refl;
  registered = (client_addr, refl, refl, refl);
  fresh = unfold accept in refl;
}

session_tun_to_udp_round_delivered_example :
    (datagram : Bytes) × ((session_tun_to_udp_round none
        (λ packet. ok (length packet))
        session
        (ok ipv4_packet)).writes
      ≡ datagram ∷ [])
    × ((udp_to_tun_round toy_crypto config suite env conn
          (λ packet. ok (length packet))
          (ok (datagram, client_addr))
          with_cipher).0.calls
        ≡ [] ++ (write_tun (take max_payload_size ipv4_packet) ∷ []))
session_tun_to_udp_round_delivered_example =
    session_tun_to_udp_round_delivered session ipv4_packet (toy_aead-IsAead (3 ∷ [])) (omega arith)
      (omega arith) (omega arith) none (λ packet. ok (length packet)) toy_crypto config suite env
      conn (λ packet. ok (length packet)) client_addr with_cipher 0 with_cipher-IsPeerOf
