-- ===== src/Server/Loops/Kept.antt =====
-- internal/server/server.go: the rounds of the three loops and the invariant of the server.
use elevpn.Prelude.{
  ℕ, suc, Bool, true, false, ◌==◌, ltb, if◌then◌else◌, Option, none, some, length, take, nat_eq,
  Result, ok, err, errors_is, drop_packet, hide,
}
use elevpn.Bytes.{Bytes}
use elevpn.Net.{UdpAddr, addr_eq}
use elevpn.Protocol.Message.{
  Header, Message, max_payload_size, message_type_aloha, message_type_data, message_type_keepalive,
}
use elevpn.Protocol.Codec.{peek_header}
use elevpn.Protocol.Aead.{Crypto, Cipher, CipherSuite}
use elevpn.Protocol.Payload.{Addr}
use elevpn.Server.Peer.{cipher_snapshot, next_send_sequence}
use elevpn.Server.PeerStore.{get_by_id, get_by_tunnel_ip}
use elevpn.Server.PeerStore.Expiry.Loop.{delete_expired-left}
use elevpn.Server.Config.{ServerConfig}
use elevpn.Server.Action.{World, Action, lift, on_peer_total}
use elevpn.Server.Action.Kept.{Leaves, Keeps, Keeps-world, after, after_attempt}
use elevpn.Server.Handlers.{Env, Conn, Tun, handle_keepalive, handle_data}
use elevpn.Server.Handlers.Invariant.{IsServer, less_room, on_peer-IsServer, next-KeepsKeys}
use elevpn.Server.Handlers.Steps.{
  lift-IsServer, read-IsServer, find-IsServer, call-IsServer, and_then,
}
use elevpn.Server.Handlers.Kept.{
  handle_aloha-IsServer, handle_keepalive-IsServer, handle_data-IsServer,
}
use elevpn.Server.Loops.{
  or_continue, or_canceled, found_cipher, aloha_round, dispatch, peer_round, other_packet,
  udp_packet, udp_to_tun_round, send_to_peer, send_to_found, send_to_dest, tun_packet,
  tun_to_udp_round, expire_round, default_peer_timeout,
}

continue-IsServer :
    {A : Type 0} (m n : ℕ) (r : Result A) (f : A → Action (Unit {0}))
    → ((w : World) → IsServer m w → IsServer n w)
    → ((a : A) → Keeps (IsServer m) (f a) (IsServer n))
    → Keeps (IsServer m) (or_continue r f) (IsServer n)
continue-IsServer m n (ok a) f less k = k a
continue-IsServer m n (err e) f less k = less

cipher-IsServer :
    (n : ℕ) (c : Option Cipher) (f : Cipher → Action (Unit {0}))
    → ((a : Cipher) → Keeps (IsServer n) (f a) (IsServer n))
    → Keeps (IsServer n) (found_cipher c f) (IsServer n)
cipher-IsServer n (some c) f k = k c
cipher-IsServer n none f k = λ w s. s

if-IsServer :
    (m n : ℕ) (b : Bool) (f g : Action (Unit {0}))
    → Keeps (IsServer m) f (IsServer n)
    → Keeps (IsServer m) g (IsServer n)
    → Keeps (IsServer m) (if b then f else g) (IsServer n)
if-IsServer m n true f g k l = k
if-IsServer m n false f g k l = l

weaken :
    (n : ℕ) (m : Action (Unit {0}))
    → Keeps (IsServer n) m (IsServer n)
    → Keeps (IsServer (suc n)) m (IsServer n)
weaken n m k w s = k w (less_room n w s)

module _ (crypto : Crypto) (cfg : ServerConfig) (cs : CipherSuite) (env : Env) (conn : Conn)
    (tun : Tun) where
  aloha_round-IsServer :
      (n : ℕ) (buf : Bytes) (addr : UdpAddr)
      → Keeps (IsServer (suc n)) (aloha_round crypto cfg cs env conn tun buf addr) (IsServer n)
  unfolding aloha_round
  aloha_round-IsServer n buf addr = continue-IsServer (suc n) n _ _ (less_room n) (λ d.
      after_attempt (IsServer n) (λ _. IsServer n) (IsServer n) _ _
        (handle_aloha-IsServer crypto cfg cs env n (some conn) (some addr) d.0 d.1)
        (λ r. lift-IsServer n _))

  dispatch-IsServer :
      (n type : ℕ) (addr : UdpAddr) (m : Message)
      → Keeps (IsServer n) (dispatch crypto cfg cs env conn tun type addr m) (IsServer n)
  unfolding dispatch
  dispatch-IsServer n type addr m =
      if-IsServer n n (type == message_type_keepalive) (handle_keepalive crypto cfg cs env m) _
        (handle_keepalive-IsServer crypto cfg cs env n m)
        (if-IsServer n n (type == message_type_data)
          (handle_data crypto cfg cs env tun (some addr) m) (lift (ok tt))
          (handle_data-IsServer crypto cfg cs env n tun (some addr) m) (λ w s. s))

  peer_round-IsServer :
      (n : ℕ) (buf : Bytes) (addr : UdpAddr) (type peer : ℕ)
      → Keeps (IsServer n) (peer_round crypto cfg cs env conn tun buf addr type peer) (IsServer n)
  unfolding peer_round
  peer_round-IsServer n buf addr type peer =
      and_then n _ _ (read-IsServer {A = Option Cipher} n (some peer) cipher_snapshot) (λ cipher.
        cipher-IsServer n cipher _ (λ c.
          continue-IsServer n n _ _ (λ w s. s)
            (λ m.
              after_attempt (IsServer n) (λ _. IsServer n) (IsServer n) _ _
                (dispatch-IsServer n type addr m) (λ r. lift-IsServer n _))))

  other_packet-IsServer :
      (n : ℕ) (buf : Bytes) (addr : UdpAddr) (h : Header)
      → Keeps (IsServer n) (other_packet crypto cfg cs env conn tun buf addr h) (IsServer n)
  unfolding other_packet
  other_packet-IsServer n buf addr h =
      after_attempt (IsServer n) (λ _. IsServer n) (IsServer n) _ _
        (find-IsServer n (λ ps. get_by_id ps h.peer_id))
        (λ f.
          continue-IsServer n n f (peer_round crypto cfg cs env conn tun buf addr h.message_type)
            (λ w s. s) (peer_round-IsServer n buf addr h.message_type))

  udp_packet-IsServer :
      (n : ℕ) (buf : Bytes) (addr : UdpAddr)
      → Keeps (IsServer (suc n)) (udp_packet crypto cfg cs env conn tun buf addr) (IsServer n)
  unfolding udp_packet
  udp_packet-IsServer n buf addr =
      continue-IsServer (suc n) n (peek_header buf) _ (less_room n) (λ h.
        if-IsServer (suc n) n (h.message_type == message_type_aloha)
          (aloha_round crypto cfg cs env conn tun buf addr)
          (other_packet crypto cfg cs env conn tun buf addr h) (aloha_round-IsServer n buf addr)
          (weaken n (other_packet crypto cfg cs env conn tun buf addr h)
            (other_packet-IsServer n buf addr h)))

  -- A round of `udpToTun` keeps the invariant and takes one peer id at most, whatever is read, and
  -- whatever the connection, the device, the context and the random source answer.
  pub udp_to_tun_round-IsServer :
      (n : ℕ) (received : Result (Bytes × UdpAddr)) (w : World)
      → IsServer (suc n) w
      → IsServer n (udp_to_tun_round crypto cfg cs env conn tun received w).0
  unfolding udp_to_tun_round
  udp_to_tun_round-IsServer n received = Keeps-world (IsServer (suc n)) (IsServer n) _ (
      after (λ _. IsServer (suc n)) (λ _. IsServer n) (IsServer n) _ _
        (given (or_canceled env.ctx_err received)) (λ d. udp_packet-IsServer n _ d.1))
    where
      given :
          {A : Type 0} (r : Result A)
          → Leaves (IsServer (suc n)) (lift r) (λ _. IsServer (suc n)) (IsServer n)
      given (ok a) w s = s
      given (err e) w s = less_room n w s

  next-IsServer :
      (n p : ℕ) → Keeps (IsServer n) (on_peer_total (some p) next_send_sequence) (IsServer n)
  next-IsServer n p =
      on_peer-IsServer {A = ℕ} n (some p)
        (λ x. ((next_send_sequence x).0, ok (next_send_sequence x).1)) next-KeepsKeys

  send_to_peer-IsServer :
      (n : ℕ) (payload : Bytes) (peer : ℕ)
      → Keeps (IsServer n) (send_to_peer crypto cfg cs env conn tun payload peer) (IsServer n)
  unfolding send_to_peer
  send_to_peer-IsServer n payload peer = and_then n _ _ (next-IsServer n peer) (λ seq.
      and_then n _ _ (read-IsServer {A = ℕ} n (some peer) (λ x. x.id)) (λ id.
        and_then n _ _ (read-IsServer {A = Option Cipher} n (some peer) cipher_snapshot) (λ cipher.
          cipher-IsServer n cipher _ (λ c. and_then n _ _ (lift-IsServer n _) (λ bytes.
            and_then n _ _ (read-IsServer {A = Option UdpAddr} n (some peer) (λ x. x.addr))
              (λ addr. and_then n _ _ (call-IsServer n _ _) (λ written. lift-IsServer n _)))))))

  send_to_found-IsServer :
      (n : ℕ) (packet : Bytes) (found : Option ℕ)
      → Keeps (IsServer n) (send_to_found crypto cfg cs env conn tun packet found) (IsServer n)
  unfolding send_to_found
  send_to_found-IsServer n packet none = λ w s. s
  send_to_found-IsServer n packet (some peer) = send_to_peer-IsServer n packet peer

  send_to_dest-IsServer :
      (n : ℕ) (packet : Bytes) (dest : Result Addr)
      → Keeps (IsServer n) (send_to_dest crypto cfg cs env conn tun packet dest) (IsServer n)
  unfolding send_to_dest
  send_to_dest-IsServer n packet (err e) =
      if-IsServer n n (errors_is e drop_packet) (lift (ok tt)) (lift (err (hide e))) (λ w s. s)
        (λ w s. s)
  send_to_dest-IsServer n packet (ok dest) =
      λ w. send_to_found-IsServer n packet (get_by_tunnel_ip w.peers dest) w

  -- A round of `tunToUdp` keeps the invariant.
  pub tun_to_udp_round-IsServer :
      (n : ℕ) (received : Result Bytes) (w : World)
      → IsServer n w
      → IsServer n (tun_to_udp_round crypto cfg cs env conn tun received w).0
  unfolding tun_to_udp_round
  tun_to_udp_round-IsServer n received = Keeps-world (IsServer n) (IsServer n) _ (
      and_then n _ _ (lift-IsServer n received) (λ read.
        if-IsServer n n (ltb 0 (length (take max_payload_size read)))
          (tun_packet crypto cfg cs env conn tun (take max_payload_size read)) (lift (ok tt))
          (unfold tun_packet in send_to_dest-IsServer n (take max_payload_size read) _) (λ w s. s)))

-- A tick of `expirePeersLoop` keeps the invariant.
pub expire_round-IsServer : (n now : ℕ) (w : World) → IsServer n w → IsServer n (expire_round now w)
unfolding expire_round
expire_round-IsServer n now w s =
    let (_, _, next, store, distinct, _) =
      delete_expired-left now default_peer_timeout w.peers s.store s.distinct in
    record { store = store; distinct = distinct; room = rw next s.room }
