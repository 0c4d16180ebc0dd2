-- ===== src/Client/Session/Delivered.antt =====
-- internal/client/session.go with internal/server/server.go and handler.go: an IP packet goes from the TUN device
-- of a client to that of the server.
use elevpn.Prelude.{
  ℕ, ◌+◌, ◌^◌, ◌%◌, ◌≤◌, ◌<◌, ◌≡◌, refl, sym, ap, ◌∙◌, true, Option, some, [], ◌∷◌, ◌++◌, length,
  take, take_long, length-take, arith, nat_eq, Error, Result, ok, ◌>>=◌, lt→ltb,
}
use elevpn.Bytes.{Bytes}
use elevpn.Net.{UdpAddr, ip_equal}
use elevpn.Protocol.Message.{
  Header, Message, IsSendable, new_message, message_type_data, max_payload_size, protocol_version,
}
use elevpn.Protocol.Codec.{peek_header, header_bytes}
use elevpn.Protocol.Codec.RoundTrip.{peek_header_long, header_fields-header_bytes}
use elevpn.Protocol.Aead.{Crypto, IsAead, CipherSuite, client_to_server, build_nonce}
use elevpn.Protocol.ReplayWindow.{accept}
use elevpn.Protocol.Packet.{encode_packet, decode_packet}
use elevpn.Protocol.Packet.RoundTrip.{
  sealed_packet, encode_packet_sendable, decode_packet-encode, length-encode_packet,
}
use elevpn.Server.Config.{ServerConfig}
use elevpn.Server.Peer.{cipher_snapshot}
use elevpn.Server.PeerStore.{deref, get_by_id}
use elevpn.Server.Action.{World, attempt, write_tun}
use elevpn.Server.Action.Kept.{after_ok}
use elevpn.Server.Handlers.{Env, Conn, Tun}
use elevpn.Server.Handlers.Delivery.{IsAuthentic, handle_data_delivers}
use elevpn.Server.Loops.{
  dispatch, peer_round, other_packet, udp_packet, udp_to_tun_round, udp_buffer_len,
}
use elevpn.Client.Session.{
  Session, next_session_sequence, send_encoded, send_message, write_packet,
  session_tun_to_udp_round,
}

-- The server has the client of a session as the peer at `p`: under its id, with its cipher and its address, and its next
-- sequence is one that the peer's window accepts.
pub record IsPeerOf (w : World) (addr : UdpAddr) (s : Session) (p : ℕ) : Type 0 where
  pub known : get_by_id w.peers s.peer_id ≡ ok p
  pub same_cipher : (deref w.peers.heap p).cipher ≡ some s.cipher
  pub registered :
      (a : UdpAddr) × ((deref w.peers.heap p).addr ≡ some a)
      × (ip_equal a.ip addr.ip ≡ true)
      × (a.port ≡ addr.port)
  pub fresh :
      (accept (deref w.peers.heap p).client_replay_window (s.client_send_sequence + 1)).1 ≡ ok tt

module _ (s : Session) (read : Bytes) where
  -- The DATA message of the packet, and what of it is sent.
  abbrev sent : Message
  sent =
      new_message message_type_data s.peer_id (s.client_send_sequence + 1)
        (take max_payload_size read)

  abbrev pub sent_bytes : Bytes
  sent_bytes = sealed_packet s.cipher sent client_to_server

  abbrev arrived : Message
  arrived = record sent { header = record sent.header { version = protocol_version } }

  module _ (good : IsAead s.cipher.aead) (full : 0 < length read) (id_fits : s.peer_id < 2 ^ 64)
      (sequence_fits : s.client_send_sequence + 1 < 2 ^ 64) where
    cut : length (take max_payload_size read) ≤ max_payload_size
    cut = omega (arith, length-take max_payload_size read)

    payload_full : 0 < length (take max_payload_size read)
    payload_full = omega (arith, length-take max_payload_size read)

    sent-IsSendable : IsSendable sent
    sent-IsSendable = record {
      header_ok = record {
        version_byte = omega arith;
        type_byte = omega arith;
        flags_byte = omega arith;
        reserved_byte = omega arith;
        peer_id_u64 = id_fits;
        sequence_u64 = sequence_fits;
      };
      type_ok = refl;
      payload_ok = cut;
    }

    encoded : encode_packet s.cipher sent client_to_server ≡ ok sent_bytes
    encoded = encode_packet_sendable s.cipher sent client_to_server sent-IsSendable

    decoded : decode_packet s.cipher sent_bytes client_to_server ≡ ok arrived
    decoded =
        ap (λ (q : Result Bytes). q >>= λ packet. decode_packet s.cipher packet client_to_server)
          (sym encoded)
        ∙ decode_packet-encode s.cipher good client_to_server sent sent-IsSendable

    size : length sent_bytes ≡ length (take max_payload_size read) + 36
    size = (length-encode_packet s.cipher good client_to_server sent sent_bytes encoded).0

    uncut : take udp_buffer_len sent_bytes ≡ sent_bytes
    uncut = take_long udp_buffer_len sent_bytes (omega (arith, size, cut))

    peeked : peek_header sent_bytes ≡ ok arrived.header
    peeked =
        peek_header_long sent_bytes (omega (arith, size))
        ∙ ap (λ (h : Header). ok h)
            (header_fields-header_bytes sent
              (s.cipher.aead.seal (build_nonce client_to_server sent.sequence) sent.payload
                (header_bytes sent))
              sent-IsSendable.header_ok)

    sent_writes :
        (ctx_err : Option Error) (conn : Bytes → Result ℕ)
        → (session_tun_to_udp_round ctx_err conn s (ok read)).writes ≡ sent_bytes ∷ []
    unfolding session_tun_to_udp_round send_message next_session_sequence send_encoded write_packet
    sent_writes ctx_err conn =
        let wraps : (s.client_send_sequence + 1) % 2 ^ 64 ≡ s.client_send_sequence + 1 =
          omega (arith, sequence_fits) in
        rw (lt→ltb 0 (length (take max_payload_size read)) payload_full, wraps) (rw encoded refl)

    module _ (crypto : Crypto) (cfg : ServerConfig) (cs : CipherSuite) (env : Env) (conn : Conn)
        (tun : Tun) (addr : UdpAddr) (w : World) (p : ℕ) (peer : IsPeerOf w addr s p) where
      -- The payload is handed to the device.
      IsDelivered : World × Result (Unit {0}) → Type 0
      IsDelivered x = x.0.calls ≡ w.calls ++ (write_tun (take max_payload_size read) ∷ [])

      arrived-IsAuthentic : IsAuthentic w addr arrived p
      arrived-IsAuthentic = record {
        full = payload_full;
        known = peer.known;
        registered = peer.registered;
        fresh = peer.fresh;
      }

      peer_round-IsDelivered :
          IsDelivered (peer_round crypto cfg cs env conn tun sent_bytes addr message_type_data p w)
      unfolding peer_round cipher_snapshot attempt dispatch IsDelivered
      peer_round-IsDelivered =
          ap (λ x. x.0.calls)
            (after_ok _ _ w w (some s.cipher) (ap (λ c. (w, ok c)) peer.same_cipher))
          ∙ rw decoded
              (handle_data_delivers crypto cfg cs env tun addr arrived w p arrived-IsAuthentic)

      udp_packet-IsDelivered : IsDelivered (udp_packet crypto cfg cs env conn tun sent_bytes addr w)
      unfolding udp_packet other_packet attempt IsDelivered
      udp_packet-IsDelivered =
          rw peeked (rw peer.known (unfold IsDelivered in peer_round-IsDelivered))

      received-IsDelivered :
          IsDelivered (udp_to_tun_round crypto cfg cs env conn tun (ok (sent_bytes, addr)) w)
      unfolding udp_to_tun_round IsDelivered
      received-IsDelivered =
          ap (λ x. x.0.calls) (after_ok _ _ w w (sent_bytes, addr) refl)
          ∙ ap (λ (b : Bytes). (udp_packet crypto cfg cs env conn tun b addr w).0.calls) uncut
          ∙ udp_packet-IsDelivered

  -- With an AEAD that does what it documents, a packet that is not empty goes from the client's TUN device to the
  -- server's, when the server has the client as a peer under the same id, cipher and address, the peer's window accepts the
  -- client's next sequence, and the id and that sequence fit in a uint64: `tunToUdp` of the client
  -- writes one datagram, and when `udpToTun` of the server reads it, the server hands the packet,
  -- cut to the payload's limit, to its TUN device and makes no other call.
  pub session_tun_to_udp_round_delivered :
      IsAead s.cipher.aead
      → 0 < length read
      → s.peer_id < 2 ^ 64
      → s.client_send_sequence + 1 < 2 ^ 64
      → (ctx_err : Option Error) (client_conn : Bytes → Result ℕ) (crypto : Crypto)
        (cfg : ServerConfig) (cs : CipherSuite) (env : Env) (conn : Conn) (tun : Tun)
        (addr : UdpAddr) (w : World) (p : ℕ)
      → IsPeerOf w addr s p
      → (datagram : Bytes) × ((session_tun_to_udp_round ctx_err client_conn s (ok read)).writes
          ≡ datagram ∷ [])
        × ((udp_to_tun_round crypto cfg cs env conn tun (ok (datagram, addr)) w).0.calls
            ≡ w.calls ++ (write_tun (take max_payload_size read) ∷ []))
  unfolding IsDelivered
  session_tun_to_udp_round_delivered good full id_fits sequence_fits ctx_err client_conn crypto cfg
        cs env conn tun addr w p peer =
      (
        sent_bytes,
        sent_writes good full id_fits sequence_fits ctx_err client_conn,
        received-IsDelivered good full id_fits sequence_fits crypto cfg cs env conn tun addr w p
            peer,
      )
