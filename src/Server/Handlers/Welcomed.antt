-- ===== src/Server/Handlers/Welcomed.antt =====
-- internal/server/handler.go: `handleAloha` for a new client while addresses are left, from the WELCOME
-- payload on, and what the client reads.
use elevpn.Prelude.{
  ℕ, ◌+◌, ◌%◌, ◌^◌, ◌<◌, ◌≡◌, refl, sym, ap, ap₂, subst, ◌∙◌, none, some, List, [], ◌∷◌, ◌++◌,
  length, arith, nat_eq, bytes_eq, Result, ok, ok-ne-err, ok-injective,
}
use elevpn.Prelude.Maps.{lookup}
use elevpn.Bytes.{Bytes}
use elevpn.Net.{UdpAddr, addr_eq}
use elevpn.Protocol.Message.{Message, new_message, message_type_welcome, default_tunnel_mtu}
use elevpn.Protocol.Payload.{Addr, v4, decode_welcome_payload}
use elevpn.Protocol.Payload.RoundTrip.{welcome_payload_sent}
use elevpn.Protocol.Aead.{Crypto, IsCrypto, Cipher, CipherSuite}
use elevpn.Protocol.Aead.Nonce.{new_welcome_cipher_total}
use elevpn.Protocol.Handshake.{encode_welcome_packet, decode_welcome_packet}
use elevpn.Protocol.Handshake.Welcome.{IsWelcome, welcome_sent}
use elevpn.Server.Peer.{Peer, next_send_sequence}
use elevpn.Server.PeerStore.{deref, update}
use elevpn.Server.PeerStore.Invariant.{deref-update}
use elevpn.Server.Allocation.{allocate_tunnel_ip}
use elevpn.Server.Config.{ServerConfig}
use elevpn.Server.Action.{Call, World, write_udp}
use elevpn.Server.Action.Kept.{bind_elim}
use elevpn.Server.Handlers.{Env, Conn, admit, welcome, handle_aloha}
use elevpn.Server.Handlers.Kept.{handle_aloha_new}
use elevpn.Server.Handlers.Admitted.{Admitted, admit_done}
use elevpn.Server.Handlers.Admission.{IsNew, registered_world}

-- The message of a WELCOME to a peer, with the bytes of its payload.
new_message-IsWelcome :
    (id : ℕ) (payload : Bytes)
    → 0 < id
    → id < 2 ^ 64
    → length payload ≡ 6
    → IsWelcome (new_message message_type_welcome id 1 payload)
new_message-IsWelcome id payload pos fits six = record {
  sendable = record {
    header_ok = record {
      version_byte = omega arith;
      type_byte = omega arith;
      flags_byte = omega arith;
      reserved_byte = omega arith;
      peer_id_u64 = fits;
      sequence_u64 = omega arith;
    };
    type_ok = refl;
    payload_ok = omega (arith, six);
  };
  type_welcome = refl;
  for_peer = pos;
  numbered = omega arith;
}

module _ (crypto : Crypto) (good : IsCrypto crypto) (cfg : ServerConfig) (cs : CipherSuite)
    (env : Env) (w : World) (addr : UdpAddr) (msg : Message) (r server_random : Bytes)
    (numbered : 0 < msg.sequence) (random : env.random ≡ ok server_random) where
  -- One datagram went to the client, in which it reads its id, its address and the server's random.
  Welcomed : Bytes → World × Result (Unit {0}) → Type 0
  Welcomed ip x =
      (packet : Bytes) × (m : Message) × (x.0.calls
        ≡ w.calls ++ (write_udp packet (some addr) ∷ []))
      × (decode_welcome_packet crypto cs packet r ≡ ok (m, server_random))
      × (m.peer_id ≡ w.peers.next_id)
      × (m.sequence ≡ 1)
      × (decode_welcome_payload m.payload
          ≡ ok (record { tunnel_ip = v4 ip; mtu = default_tunnel_mtu }))

  same_packet :
      {c c' : Cipher} {id id' s s' : ℕ} {b b' : Bytes}
      → c ≡ c'
      → id ≡ id'
      → s ≡ s'
      → b ≡ b'
      → encode_welcome_packet
          (some c)
          (some (new_message message_type_welcome id s b))
          server_random
        ≡ encode_welcome_packet
            (some c')
            (some (new_message message_type_welcome id' s' b'))
            server_random
  same_packet e f g h = rw (e, f, g, h) refl

  next_is_one :
      (x : Peer) (s : ℕ) → x.server_send_sequence ≡ 0 → ok (next_send_sequence x).1 ≡ ok s → s ≡ 1
  unfolding next_send_sequence
  next_is_one x s e h = sym (ok-injective h) ∙ ap (λ (t : ℕ). (t + 1) % 2 ^ 64) e

  welcome_done :
      (ip : Bytes) (conn : Conn) (w' : World)
      → length ip ≡ 4
      → 0 < w.peers.next_id
      → w.peers.next_id < 2 ^ 64
      → length server_random ≡ 16
      → IsNew w.peers.next_id (length w.peers.heap) w.calls w'
      → Welcomed ip (
          welcome crypto cfg cs env conn
            (some addr)
            (some (length w.peers.heap))
            r
            (server_random, v4 ip)
            w')
  unfolding welcome Welcomed
  welcome_done ip conn w' four pos fits len new =
      let (bytes, sent, six, back) =
        welcome_payload_sent ip default_tunnel_mtu four (omega arith) (omega arith) in
      let (c, made, _) = new_welcome_cipher_total crypto good cs r server_random in
      let m = new_message message_type_welcome w.peers.next_id 1 bytes in
      let (packet, sealed, opened) =
        welcome_sent crypto good cs r m server_random c
          (new_message-IsWelcome w.peers.next_id bytes pos fits six) len made in
      bind_elim (Welcomed ip) _ _ w'
        (λ b got_b.
          bind_elim (Welcomed ip) _ _ w'
            (λ s got_s.
              bind_elim (Welcomed ip) _ _ _
                (λ id got_id.
                  bind_elim (Welcomed ip) _ _ _
                    (λ c' got_c.
                      let same =
                        same_packet (ok-injective (sym got_c ∙ made)) (own id got_id)
                          (next_is_one (deref w'.peers.heap (length w.peers.heap)) s new.unsent
                            got_s)
                          (ok-injective (sym got_b ∙ sent))
                        ∙ sealed in
                      bind_elim (Welcomed ip) _ _ _
                        (λ packet' got_packet.
                          let calls : w'.calls ++ (write_udp packet' (some addr) ∷ [])
                              ≡ w.calls ++ (write_udp packet (some addr) ∷ []) =
                            ap₂ (λ (l : List Call) (k : Bytes). l ++ (write_udp k (some addr) ∷ []))
                              new.no_calls (ok-injective (sym got_packet ∙ same)) in
                          bind_elim (Welcomed ip) _ _ _
                            (λ _ _. (packet, _, calls, opened, refl, refl, back))
                            (λ _ _. (packet, _, calls, opened, refl, refl, back)))
                        (λ e h. absurd (ok-ne-err (sym same ∙ h))))
                    (λ e h. absurd (ok-ne-err (sym made ∙ h))))
                (λ e h. absurd (ok-ne-err h)))
            (λ e h. absurd (ok-ne-err h)))
        (λ e h. absurd (ok-ne-err (sym sent ∙ h)))
    where
      own :
          (id : ℕ)
          → ok
              (deref
                (update w'.peers (length w.peers.heap) (λ x. (next_send_sequence x).0)).heap
                (length w.peers.heap)).id
            ≡ ok id
          → id ≡ w.peers.next_id
      own id h =
          sym (ok-injective h)
          ∙ deref-update (λ x. x.id) (λ x. (next_send_sequence x).0)
              (unfold next_send_sequence in λ x. refl) w'.peers.heap (length w.peers.heap)
              (length w.peers.heap)
          ∙ new.same_id

  -- With crypto packages that do what they document, and while the configured network has a free address
  -- for the next id, which is not 0 and fits in a uint64, `handleAloha` answers the first ALOHA under a
  -- client random by one datagram to the sender, whatever the connection answers, if the ALOHA's sequence
  -- is not 0 and the random source gives 16 bytes. The client that knows the pre-shared key and its random
  -- decodes the datagram: it is a WELCOME of sequence 1 to that id, with the server's random, that address
  -- and the MTU of the tunnel.
  pub handle_aloha_welcomed :
      (ip : Bytes) (conn : Conn)
      → lookup r w.peers.by_client_random ≡ none
      → allocate_tunnel_ip cfg.vpn_network_cidr w.peers.next_id ≡ ok (v4 ip)
      → lookup (v4 ip) w.peers.by_tunnel_ip ≡ none
      → length ip ≡ 4
      → 0 < w.peers.next_id
      → w.peers.next_id < 2 ^ 64
      → length server_random ≡ 16
      → (packet : Bytes) × (m : Message) × ((handle_aloha crypto cfg cs env
            (some conn)
            (some addr)
            msg
            r
            w).0.calls
          ≡ w.calls ++ (write_udp packet (some addr) ∷ []))
        × (decode_welcome_packet crypto cs packet r ≡ ok (m, server_random))
        × (m.peer_id ≡ w.peers.next_id)
        × (m.sequence ≡ 1)
        × (decode_welcome_payload m.payload
            ≡ ok (record { tunnel_ip = v4 ip; mtu = default_tunnel_mtu }))
  unfolding Welcomed Admitted
  handle_aloha_welcomed ip conn fresh given free four pos fits len =
      subst (Welcomed ip) (sym (handle_aloha_new crypto cfg cs env w conn addr msg r fresh)) (
        bind_elim (Welcomed ip) _ _ _
          (λ pair got.
            let (result, new) =
              admit_done crypto good cfg cs env w addr msg r server_random numbered random (v4 ip)
                given free in
            subst
              (λ (x : Bytes × Addr). Welcomed ip (
                welcome crypto cfg cs env conn (some addr) (some (length w.peers.heap)) r x
                  (admit crypto cfg cs env (some (length w.peers.heap)) msg r (
                    registered_world crypto good cfg cs env w addr msg r server_random numbered
                      random)).0))
              (ok-injective (sym result ∙ got)) (welcome_done ip conn _ four pos fits len new))
          (λ e h. absurd (
            ok-ne-err (
              sym
                (admit_done crypto good cfg cs env w addr msg r server_random numbered random
                  (v4 ip) given free).0
              ∙ h))))
