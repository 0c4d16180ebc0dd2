-- ===== src/Server/Handlers.antt =====
-- internal/server/handler.go: `handleAloha`, `handleKeepalive` and `handleData`; server.go:
-- `handlePacketError`.
-- Each handler takes the answers of what it calls outside: `now` and `random` are what `time.Now` and
-- `GenerateHandshakeRandom` give, `ctx_err` is `ctx.Err()`, and a connection or a TUN device is the
-- function from what is written to the answer. Log lines are left out.
pub mod Invariant
pub mod Steps
pub mod Kept
pub mod Delivery
pub mod Admission
pub mod Admitted
pub mod Welcomed
pub mod Keyed
use elevpn.Prelude.{
  ℕ, Bool, true, false, not, ◌==◌, ◌||◌, if◌then◌else◌, Option, none, some, length, Error, fault,
  sentinel, conn_nil, addr_nil, drop_packet, invalid_sequence, duplicate_sequence, sequence_too_old,
  short_write, errors_is, Result, ok, err, wrap, wrapping, reject,
}
use elevpn.Bytes.{Bytes}
use elevpn.Net.{UdpAddr, ip_equal}
use elevpn.Protocol.Message.{Message, new_message, message_type_welcome, default_tunnel_mtu}
use elevpn.Protocol.Payload.{Addr, encode_welcome_payload}
use elevpn.Protocol.Aead.{Crypto, CipherSuite, new_peer_cipher, new_welcome_cipher}
use elevpn.Protocol.Handshake.{encode_welcome_packet}
use elevpn.Server.Peer.{Peer, next_send_sequence, accept_client_sequence, set_cipher, touch}
use elevpn.Server.PeerStore.{Ptr, register, get_by_id, set_tunnel_ip}
use elevpn.Server.Config.{ServerConfig}
use elevpn.Server.Allocation.{allocate_tunnel_ip}
use elevpn.Server.Action.{
  write_udp, write_tun, Action, ◌>>=◌, ◌>>◌, lift, on_store, on_peer, on_peer_total, read_peer,
  call, attempt,
}

pub record Env : Type 0 where
  pub now : ℕ
  pub random : Result Bytes
  pub ctx_err : Option Error

abbrev pub Conn : Type 0
Conn = Bytes → Option UdpAddr → Result ℕ

abbrev pub Tun : Type 0
Tun = Bytes → Result ℕ

abbrev pub touch_now : ℕ → Peer → Peer × Unit {0}
touch_now now x = (touch x now, tt)

-- `if err != nil { return fmt.Errorf("...: %w", ErrDropPacket) }`: the cause is replaced.
abbrev pub or_drop : {A : Type 0} → Result A → Result A
or_drop (ok a) = ok a
or_drop (err e) = err (wrap (sentinel drop_packet))

module _ (crypto : Crypto) (cfg : ServerConfig) (cs : CipherSuite) (env : Env) where
  -- `handleAloha` for a peer that was registered just now: the peer's sequence, cipher and tunnel IP.
  unfoldable pub admit : Ptr → Message → Bytes → Action (Bytes × Addr)
  admit peer msg client_random = do
    on_peer peer (λ x. accept_client_sequence x msg.sequence)
    server_random ← lift env.random
    id ← read_peer peer (λ x. x.id)
    peer_cipher ← lift (new_peer_cipher crypto cs id client_random server_random)
    on_peer_total peer (λ x. (set_cipher x (some peer_cipher), tt))
    tunnel_ip ← lift (allocate_tunnel_ip cfg.vpn_network_cidr id)
    on_store (λ ps. set_tunnel_ip ps id tunnel_ip)
    lift (ok (server_random, tunnel_ip))

  -- `handleAloha` from the WELCOME payload on.
  unfoldable pub welcome : Conn → Option UdpAddr → Ptr → Bytes → Bytes × Addr → Action (Unit {0})
  welcome conn peer_addr peer client_random (server_random, tunnel_ip) = do
    welcome_payload ←
        lift (encode_welcome_payload (record { tunnel_ip = tunnel_ip; mtu = default_tunnel_mtu }))
    next_seq ← on_peer_total peer next_send_sequence
    id ← read_peer peer (λ x. x.id)
    let message = new_message message_type_welcome id next_seq welcome_payload
    welcome_cipher ← lift (new_welcome_cipher crypto cs client_random server_random)
    welcome_packet ← lift (encode_welcome_packet (some welcome_cipher) (some message) server_random)
    written ← call (write_udp welcome_packet peer_addr) (conn welcome_packet peer_addr)
    lift (reject (not (written == length welcome_packet)) (sentinel short_write))

  unfoldable pub handle_aloha : Option Conn → Option UdpAddr → Message → Bytes → Action (Unit {0})
  handle_aloha none peer_addr msg client_random = lift (err (fault conn_nil))
  handle_aloha (some conn) none msg client_random = lift (err (fault addr_nil))
  handle_aloha (some conn) (some peer_addr) msg client_random = do
    registered ← on_store (λ ps. register ps (some peer_addr) client_random env.now)
    if not registered.1
        then lift (ok tt)
        else admit registered.0 msg client_random
          >>= welcome conn (some peer_addr) registered.0 client_random

  unfoldable pub handle_keepalive : Message → Action (Unit {0})
  handle_keepalive msg = do
    peer ← on_store (λ ps. (ps, wrapping (get_by_id ps msg.peer_id)))
    on_peer (some peer) (λ x. let (y, r) = accept_client_sequence x msg.sequence in (y, wrapping r))
    on_peer_total (some peer) (touch_now env.now)

  -- `peer.addr` is compared with the sender's address, an IPv4 address in either form.
  abbrev pub check_sender : Option UdpAddr → UdpAddr → Result (Unit {0})
  check_sender none peer_addr = err (wrap (sentinel drop_packet))
  check_sender (some addr) peer_addr =
      if not (ip_equal addr.ip peer_addr.ip)
      then err (wrap (sentinel drop_packet))
      else if not (addr.port == peer_addr.port)
      then err (wrap (sentinel drop_packet))
      else ok tt

  -- `tun.WriteContext` and what follows from its answer.
  abbrev pub deliver : Tun → Bytes → Action (Unit {0})
  deliver tun payload =
      attempt (call (write_tun payload) (tun payload)) (λ answer. lift (written answer))
    where
      written : Result ℕ → Result (Unit {0})
      written (err e) = elim env.ctx_err [ some canceled ↦ err canceled | none ↦ err e ]
      written (ok n) = reject (not (n == length payload)) (sentinel short_write)

  unfoldable pub handle_data : Tun → Option UdpAddr → Message → Action (Unit {0})
  handle_data tun none message = lift (err (wrap (sentinel drop_packet)))
  handle_data tun (some peer_addr) message = do
    lift (reject (length message.payload == 0) (wrap (sentinel drop_packet)))
    peer ← on_store (λ ps. (ps, or_drop (get_by_id ps message.peer_id)))
    addr ← read_peer (some peer) (λ x. x.addr)
    lift (check_sender addr peer_addr)
    on_peer (some peer)
        (λ x. let (y, r) = accept_client_sequence x message.sequence in (y, wrapping r))
    deliver tun message.payload
    on_peer_total (some peer) (touch_now env.now)

-- `handlePacketError`: nil for what is only logged.
abbrev pub handle_packet_error : Result (Unit {0}) → Result (Unit {0})
handle_packet_error (ok _) = ok tt
handle_packet_error (err e) =
    if errors_is e drop_packet
    then ok tt
    else if errors_is e invalid_sequence
    then ok tt
    else if errors_is e duplicate_sequence || errors_is e sequence_too_old
    then ok tt
    else err e
