-- ===== src/Server/Loops.antt =====
-- internal/server/server.go: `udpToTun`, `tunToUdp` and `expirePeersLoop`.
-- A round of a loop takes what the blocking call at its top gave. `ok` goes on to the next round, `err` is
-- what the loop returns. A loop that has no further input waits.
pub mod Kept
pub mod Exhausted
pub mod Resilience
use elevpn.Prelude.{
  ℕ, ◌+◌, ◌*◌, ◌^◌, Bool, true, false, not, ◌==◌, ltb, if◌then◌else◌, Option, none, some, List, [],
  ◌∷◌, length, take, Error, fault, sentinel, drop_packet, short_write, errors_is, Result, ok, err,
  hide, wrapping, reject,
}
use elevpn.Bytes.{Bytes}
use elevpn.Net.{UdpAddr, addr_eq}
use elevpn.Protocol.Message.{
  Message, Header, new_message, message_type_aloha, message_type_data, message_type_keepalive,
  message_header_len, max_payload_size, aead_tag_len,
}
use elevpn.Protocol.Codec.{peek_header}
use elevpn.Protocol.Aead.{Crypto, Cipher, CipherSuite, client_to_server, server_to_client}
use elevpn.Protocol.Packet.{encode_packet, decode_packet}
use elevpn.Protocol.Handshake.{handshake_random_len, decode_aloha_packet}
use elevpn.Protocol.Payload.{Addr}
use elevpn.Server.Peer.{Peer, cipher_snapshot, next_send_sequence}
use elevpn.Server.PeerStore.{Ptr, get_by_id, get_by_tunnel_ip, delete_expired}
use elevpn.Server.Config.{ServerConfig}
use elevpn.Server.Ipv4.{extract_ipv4_dst}
use elevpn.Server.Action.{
  World, write_udp, Action, ◌>>=◌, ◌>>◌, lift, on_store, on_peer, on_peer_total, read_peer, call,
  attempt,
}
use elevpn.Server.Handlers.{
  Env, Conn, Tun, handle_aloha, handle_keepalive, handle_data, handle_packet_error,
}

abbrev pub udp_buffer_len : ℕ
udp_buffer_len = message_header_len + handshake_random_len + max_payload_size + aead_tag_len

-- `if err != nil { log; continue }`
abbrev pub or_continue : {A : Type 0} → Result A → (A → Action (Unit {0})) → Action (Unit {0})
or_continue (ok a) f = f a
or_continue (err e) f = lift (ok tt)

-- `if err != nil { if ctx.Err() != nil { return ctx.Err() }; return err }`
abbrev pub or_canceled : {A : Type 0} → Option Error → Result A → Result A
or_canceled ctx_err (ok a) = ok a
or_canceled none (err e) = err e
or_canceled (some c) (err e) = err c

abbrev pub found_cipher : Option Cipher → (Cipher → Action (Unit {0})) → Action (Unit {0})
found_cipher none f = lift (ok tt)
found_cipher (some c) f = f c

module _ (crypto : Crypto) (cfg : ServerConfig) (cs : CipherSuite) (env : Env) (conn : Conn)
    (tun : Tun) where
  -- An ALOHA packet in the buffer.
  unfoldable pub aloha_round : Bytes → UdpAddr → Action (Unit {0})
  aloha_round buf peer_addr = or_continue (decode_aloha_packet crypto cs buf) (λ decoded.
      attempt (handle_aloha crypto cfg cs env (some conn) (some peer_addr) decoded.0 decoded.1)
        (λ result. lift (wrapping (handle_packet_error result))))

  -- The switch over the type in the plain header. The other types leave `err` nil.
  unfoldable pub dispatch : ℕ → UdpAddr → Message → Action (Unit {0})
  dispatch message_type peer_addr message =
      if message_type == message_type_keepalive
      then handle_keepalive crypto cfg cs env message
      else if message_type == message_type_data
      then handle_data crypto cfg cs env tun (some peer_addr) message
      else lift (ok tt)

  -- A packet of another type, once its peer is found.
  unfoldable pub peer_round : Bytes → UdpAddr → ℕ → ℕ → Action (Unit {0})
  peer_round buf peer_addr message_type peer = do
    cipher ← read_peer (some peer) cipher_snapshot
    found_cipher cipher (λ c. or_continue (decode_packet c buf client_to_server) (λ message.
        attempt (dispatch message_type peer_addr message)
          (λ result. lift (handle_packet_error result))))

  -- A packet of another type.
  unfoldable pub other_packet : Bytes → UdpAddr → Header → Action (Unit {0})
  other_packet buf peer_addr header =
      attempt (on_store (λ ps. (ps, get_by_id ps header.peer_id)))
        (λ found. or_continue found (peer_round buf peer_addr header.message_type))

  -- What follows the read of a datagram into the buffer.
  unfoldable pub udp_packet : Bytes → UdpAddr → Action (Unit {0})
  udp_packet buf peer_addr = or_continue (peek_header buf) (λ header.
      if header.message_type == message_type_aloha
      then aloha_round buf peer_addr
      else other_packet buf peer_addr header)

  -- A round of `udpToTun`: what does not fit in the buffer is cut off.
  unfoldable pub udp_to_tun_round : Result (Bytes × UdpAddr) → Action (Unit {0})
  udp_to_tun_round received = do
    datagram ← lift (or_canceled env.ctx_err received)
    udp_packet (take udp_buffer_len datagram.0) datagram.1

  -- `tunToUdp` once the peer is found.
  unfoldable pub send_to_peer : Bytes → ℕ → Action (Unit {0})
  send_to_peer payload peer = do
    next_seq ← on_peer_total (some peer) next_send_sequence
    id ← read_peer (some peer) (λ x. x.id)
    let message = new_message message_type_data id next_seq payload
    cipher ← read_peer (some peer) cipher_snapshot
    found_cipher cipher (λ c. do
      bytes ← lift (encode_packet c message server_to_client)
      addr ← read_peer (some peer) (λ x. x.addr)
      written ← call (write_udp bytes addr) (or_canceled env.ctx_err (conn bytes addr))
      lift (reject (not (written == length bytes)) (sentinel short_write)))

  -- `getByTunnelIP` gives nil and false when there is no peer.
  unfoldable pub send_to_found : Bytes → Option ℕ → Action (Unit {0})
  send_to_found packet none = lift (ok tt)
  send_to_found packet (some peer) = send_to_peer packet peer

  unfoldable pub send_to_dest : Bytes → Result Addr → Action (Unit {0})
  send_to_dest packet (err e) =
      if errors_is e drop_packet then lift (ok tt) else lift (err (hide e))
  send_to_dest packet (ok dest) = λ w. send_to_found packet (get_by_tunnel_ip w.peers dest) w

  unfoldable pub tun_packet : Bytes → Action (Unit {0})
  tun_packet packet = send_to_dest packet (extract_ipv4_dst packet)

  -- A round of `tunToUdp`: the device cuts a packet to the buffer, and an empty read does nothing.
  unfoldable pub tun_to_udp_round : Result Bytes → Action (Unit {0})
  tun_to_udp_round received = do
    read ← lift received
    let packet = take max_payload_size read
    if ltb 0 (length packet) then tun_packet packet else lift (ok tt)

-- 30 seconds in nanoseconds.
abbrev pub default_peer_timeout : ℕ
default_peer_timeout = 30 * 10 ^ 9

-- A tick of `expirePeersLoop`.
unfoldable pub expire_round : ℕ → World → World
expire_round now w = record w { peers = (delete_expired w.peers now default_peer_timeout).0 }
