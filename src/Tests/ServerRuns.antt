-- ===== src/Tests/ServerRuns.antt =====
-- The properties of the server's handlers and loops at concrete inputs.
use elevpn.Prelude.{
  ℕ, ◌≡◌, ◌≢◌, ◌⊎◌, refl, sym, ◌∙◌, ap, none, some, List, [], ◌∷◌, ◌++◌, length, take, arith,
  nat_eq, bytes_eq, ok, err, ok-injective, fault, wrap, invalid_ip_range,
}
use elevpn.Prelude.Maps.{lookup, insert}
use elevpn.Bytes.{Bytes, put_be, be}
use elevpn.Net.{addr_eq}
use elevpn.Protocol.Message.{Header, Message, message_type_aloha, default_tunnel_mtu}
use elevpn.Protocol.Codec.{peek_header, header_fields, decode, encode, header_bytes}
use elevpn.Protocol.Payload.{invalid, v4, decode_welcome_payload, encode_welcome_payload}
use elevpn.Protocol.Aead.{
  build_nonce, open_payload, seal_payload, new_aloha_cipher, new_welcome_cipher, new_peer_cipher,
  new_cipher_from_key,
}
use elevpn.Protocol.ReplayWindow.{accept}
use elevpn.Protocol.Handshake.{
  decode_aloha_packet, decode_welcome_packet, check_aloha_header, open_handshake,
  encode_welcome_packet, seal_handshake,
}
use elevpn.Server.Peer.{accept_client_sequence, next_send_sequence, set_cipher}
use elevpn.Server.Peer
use elevpn.Server.PeerStore.{Ptr, PeerStore, new_peer_store, deref, register, delete_expired}
use elevpn.Server.PeerStore
use elevpn.Server.Allocation.{allocate_tunnel_ip, valid_ip_range}
use elevpn.Server.Action.{World, write_udp, write_tun, ◌>>=◌, attempt}
use elevpn.Server.Handlers.{Env, Conn, Tun, handle_aloha, handle_data, admit, welcome}
use elevpn.Server.Handlers.Invariant.{IsServer}
use elevpn.Server.Handlers.Delivery.{IsAuthentic, handle_data_calls, handle_data_delivers}
use elevpn.Server.Handlers.Welcomed.{handle_aloha_welcomed}
use elevpn.Server.Loops.{udp_to_tun_round, udp_packet, aloha_round, udp_buffer_len}
use elevpn.Server.Loops.Exhausted.{udp_to_tun_round_exhausted}
use elevpn.Server.Loops.Resilience.{udp_to_tun_round_goes_on}
use elevpn.Server.Runs.{
  Round, udp_round, tun_round, tick, start, run_round, run_all, run_all-IsStore, run_all_one_peer,
}
use elevpn.Tests.ToyCrypto.{toy_crypto, toy_crypto-IsCrypto}
use elevpn.Tests.Protocol.{data_message, sealed_packet}
use elevpn.Tests.Handshakes.{
  client_random, server_random, suite, aloha_message, aloha_received, aloha_packet,
  aloha_packet_decodes,
}
use elevpn.Tests.Server.{config, first_ip, first_ip_given, ipv4_packet, client_addr, one_peer}

abbrev pub env : Env
env = record { now = 100; random = ok server_random; ctx_err = none }

abbrev pub conn : Conn
conn = λ packet addr. ok (length packet)

abbrev tun : Tun
tun = λ packet. ok (length packet)

handle_aloha_welcomed_example :
    (packet : Bytes) × (m : Message) × ((handle_aloha toy_crypto config suite env
        (some conn)
        (some client_addr)
        aloha_message
        client_random
        start).0.calls
      ≡ [] ++ (write_udp packet (some client_addr) ∷ []))
    × (decode_welcome_packet toy_crypto suite packet client_random ≡ ok (m, server_random))
    × (m.peer_id ≡ 1)
    × (m.sequence ≡ 1)
    × (decode_welcome_payload m.payload
        ≡ ok (record { tunnel_ip = v4 first_ip; mtu = default_tunnel_mtu }))
handle_aloha_welcomed_example =
    handle_aloha_welcomed toy_crypto toy_crypto-IsCrypto config suite env start client_addr
      aloha_message client_random server_random (omega arith) refl first_ip conn
      (unfold lookup in refl) first_ip_given (unfold lookup in refl) refl (omega arith)
      (omega arith) refl

-- The one address was given out, to a client that is gone.
abbrev used_up : World
used_up = record { peers = record new_peer_store { next_id = 2 }; calls = [] }

aloha_decodes :
    decode_aloha_packet toy_crypto suite (take udp_buffer_len aloha_packet)
    ≡ ok (aloha_received, client_random)
aloha_decodes = aloha_packet_decodes

udp_to_tun_round_exhausted_example :
    (udp_to_tun_round toy_crypto config suite env conn tun
      (ok (aloha_packet, client_addr))
      used_up).1
    ≡ err (wrap (fault invalid_ip_range))
udp_to_tun_round_exhausted_example =
    udp_to_tun_round_exhausted toy_crypto toy_crypto-IsCrypto config suite env conn tun aloha_packet
      client_addr aloha_received client_random server_random 168296448 30 used_up refl aloha_decodes
      (unfold lookup in refl) refl (omega arith) (omega arith) (omega arith)

abbrev one_client : World
one_client = record { peers = one_peer; calls = [] }

abbrev first_data : Message
first_data = record data_message { header = record data_message.header { peer_id = 1 } }

handle_data_calls_example :
    ((handle_data toy_crypto config suite env tun (some client_addr) first_data one_client).0.calls
      ≡ [])
    ⊎ ((p : ℕ) × IsAuthentic one_client client_addr first_data p
        × ((handle_data toy_crypto config suite env tun
              (some client_addr)
              first_data
              one_client).0.calls
            ≡ [] ++ (write_tun first_data.payload ∷ [])))
handle_data_calls_example =
    handle_data_calls toy_crypto config suite env tun client_addr first_data one_client

not_aloha :
    (h : Header)
    → peek_header (take udp_buffer_len sealed_packet) ≡ ok h
    → h.message_type ≢ message_type_aloha
unfolding peek_header header_fields
not_aloha h e t =
    let three : 3 ≡ h.message_type = ap (λ (x : Header). x.message_type) (ok-injective e) in
    omega (arith, three, t)

udp_to_tun_round_goes_on_example :
    (udp_to_tun_round toy_crypto config suite env conn tun
      (ok (sealed_packet, client_addr))
      one_client).1
    ≡ ok tt
udp_to_tun_round_goes_on_example =
    udp_to_tun_round_goes_on toy_crypto config suite env conn tun (λ payload. refl) sealed_packet
      client_addr one_client not_aloha

abbrev rounds : List Round
rounds =
    udp_round env conn tun (ok (aloha_packet, client_addr))
    ∷ tun_round env conn tun (ok ipv4_packet)
    ∷ tick 200
    ∷ []

run_all-IsStore_example : IsServer 0 (run_all toy_crypto config suite rounds start)
run_all-IsStore_example = run_all-IsStore toy_crypto config suite rounds (omega arith)

abbrev one_round : List Round
one_round = udp_round env conn tun (ok (aloha_packet, client_addr)) ∷ []

admitted :
    (lookup 1 (run_all toy_crypto config suite one_round start).peers.by_id ≡ some (some 0))
    × ((deref (run_all toy_crypto config suite one_round start).peers.heap 0).tunnel_ip
        ≡ v4 first_ip)
unfolding lookup insert run_all run_round udp_to_tun_round udp_packet aloha_round ◌>>=◌ attempt
    peek_header header_fields be decode_aloha_packet check_aloha_header new_aloha_cipher
    new_cipher_from_key open_handshake open_payload build_nonce put_be decode handle_aloha admit
    welcome register PeerStore.set_tunnel_ip Peer.set_tunnel_ip set_cipher accept_client_sequence
    accept next_send_sequence allocate_tunnel_ip valid_ip_range new_peer_cipher new_welcome_cipher
    encode_welcome_payload encode_welcome_packet seal_handshake seal_payload encode header_bytes
admitted = (refl, refl)

admitted_address :
    (deref (run_all toy_crypto config suite one_round start).peers.heap 0).tunnel_ip ≢ invalid
admitted_address e = v4-ne-invalid (sym admitted.1 ∙ e)
  where
    v4-ne-invalid : v4 first_ip ≢ invalid
    v4-ne-invalid h = cc

run_all_one_peer_example : ◌≡◌ {A = ℕ} 1 1
run_all_one_peer_example =
    run_all_one_peer toy_crypto config suite one_round 1 1 0 0 (omega arith) admitted.0 admitted.0
      refl admitted_address

one_client-IsAuthentic : IsAuthentic one_client client_addr first_data 0
one_client-IsAuthentic = record {
  full = omega arith;
  known = unfold PeerStore.get_by_id insert lookup in refl;
  registered = (client_addr, refl, refl, refl);
  fresh = unfold accept in refl;
}

handle_data_delivers_example :
    (handle_data toy_crypto config suite env tun (some client_addr) first_data one_client).0.calls
    ≡ [] ++ (write_tun first_data.payload ∷ [])
handle_data_delivers_example =
    handle_data_delivers toy_crypto config suite env tun client_addr first_data one_client 0
      one_client-IsAuthentic
