-- ===== src/Server/Handlers/Kept.antt =====
-- internal/server/handler.go: the handlers and the invariant of the server.
use elevpn.Prelude.{
  ℕ, suc, ◌≡◌, inl, inr, ap, Bool, true, false, Option, none, some, length, arith, nat_eq, bytes_eq,
  Result, ok, Option-cases, wrapping,
}
use elevpn.Prelude.Maps.{lookup, lookup-insert_self}
use elevpn.Prelude.Keys.{insert-KeysDistinct}
use elevpn.Bytes.{Bytes}
use elevpn.Net.{UdpAddr, addr_eq}
use elevpn.Protocol.Payload.{Addr}
use elevpn.Protocol.Message.{Message}
use elevpn.Protocol.Aead.{Crypto, Cipher, CipherSuite, new_peer_cipher}
use elevpn.Server.Peer.{Peer, accept_client_sequence, set_cipher, touch}
use elevpn.Server.PeerStore.{Ptr, PeerStore, get_by_id, set_tunnel_ip}
use elevpn.Server.PeerStore.Invariant.{deref-append_new}
use elevpn.Server.PeerStore.Registration.{
  registered, register_new, register_again, registered-IsStore,
}
use elevpn.Server.Allocation.{allocate_tunnel_ip}
use elevpn.Server.Config.{ServerConfig}
use elevpn.Server.Action.{World, ◌>>=◌, ◌>>◌, lift, on_store, on_peer, on_peer_total}
use elevpn.Server.Action.Kept.{Leaves, Keeps, after, after_attempt, after_ok}
use elevpn.Server.Handlers.{
  Env, Conn, Tun, admit, welcome, handle_aloha, handle_keepalive, handle_data, or_drop, deliver,
  touch_now,
}
use elevpn.Server.Handlers.Invariant.{
  IsServer, IsAdmitting, less_room, accept-KeepsKeys, next-KeepsKeys, touch-KeepsKeys,
  set_cipher-KeepsKeys, on_peer-IsServer, on_peer-IsAdmitting, lift-IsAdmitting, allocated_real,
  set_tunnel_ip-IsServer,
}
use elevpn.Server.Handlers.Steps.{
  lift-IsServer, read-IsServer, find-IsServer, call-IsServer, and_then, read_id-IsAdmitting,
  pass-IsAdmitting, known,
}

module _ (crypto : Crypto) (cfg : ServerConfig) (cs : CipherSuite) (env : Env) where
  admit-IsServer :
      (n p id : ℕ) (msg : Message) (client_random : Bytes)
      → Keeps (IsAdmitting n p id) (admit crypto cfg cs env (some p) msg client_random) (IsServer n)
  unfolding admit
  admit-IsServer n p id msg client_random =
      after (λ _. IsAdmitting n p id) (λ _. IsServer n) (IsServer n) _ _
        (on_peer-IsAdmitting n p id (some p) (λ x. accept_client_sequence x msg.sequence)
          (accept-KeepsKeys msg.sequence))
        (λ _.
          after (λ _. IsAdmitting n p id) (λ _. IsServer n) (IsServer n) _ _
            (pass-IsAdmitting n p id env.random)
            (λ server_random.
              after (λ i. IsAdmitting n p i) (λ _. IsServer n) (IsServer n) _ _
                (read_id-IsAdmitting n p id)
                (λ i.
                  after (λ _. IsAdmitting n p i) (λ _. IsServer n) (IsServer n) _ _
                    (pass-IsAdmitting n p i
                      (new_peer_cipher crypto cs i client_random server_random))
                    (λ c.
                      after (λ _. IsAdmitting n p i) (λ _. IsServer n) (IsServer n) _ _
                        (give_cipher n p i c) (λ _. give_address n p i server_random)))))
    where
      give_cipher :
          (n p i : ℕ) (c : Cipher)
          → Leaves
              (IsAdmitting n p i)
              (on_peer_total {A = Unit {0}} (some p) (λ x. (set_cipher x (some c), tt)))
              (λ _. IsAdmitting n p i)
              (IsServer n)
      give_cipher n p i c =
          on_peer-IsAdmitting {A = Unit {0}} n p i (some p) (λ x. (set_cipher x (some c), ok tt))
            (set_cipher-KeepsKeys (some c))

      give_address :
          (n p i : ℕ) (server_random : Bytes)
          → Keeps
              (IsAdmitting n p i)
              (lift (allocate_tunnel_ip cfg.vpn_network_cidr i) >>= λ ip.
                on_store (λ ps. set_tunnel_ip ps i ip)
                >> lift {A = Bytes × Addr} (ok (server_random, ip)))
              (IsServer n)
      give_address n p i server_random =
          after (λ ip w. IsAdmitting n p i w × (allocate_tunnel_ip cfg.vpn_network_cidr i ≡ ok ip))
            (λ _. IsServer n) (IsServer n) _ _
            (lift-IsAdmitting n p i (allocate_tunnel_ip cfg.vpn_network_cidr i))
            (λ ip.
              after (λ _. IsServer n) (λ _. IsServer n) (IsServer n) _ _
                (known n (IsAdmitting n p i) _ _ (λ h.
                  set_tunnel_ip-IsServer n p i ip (allocated_real cfg.vpn_network_cidr i ip h)))
                (λ _ w s. s))

  welcome-IsServer :
      (n : ℕ) (conn : Conn) (addr : Option UdpAddr) (ptr : Ptr) (r : Bytes) (given : Bytes × Addr)
      → Keeps (IsServer n) (welcome crypto cfg cs env conn addr ptr r given) (IsServer n)
  unfolding welcome
  welcome-IsServer n conn addr ptr r (server_random, ip) =
      and_then n _ _ (lift-IsServer n _) (λ payload.
        and_then n _ _ (on_peer-IsServer n ptr _ next-KeepsKeys) (λ seq.
          and_then n _ _ (read-IsServer n ptr _) (λ id. and_then n _ _ (lift-IsServer n _) (λ c.
            and_then n _ _ (lift-IsServer n _)
              (λ packet. and_then n _ _ (call-IsServer n _ _) (λ written. lift-IsServer n _))))))

  new_client :
      (n : ℕ) (w : World) (addr : UdpAddr) (r : Bytes)
      → IsServer (suc n) w
      → lookup r w.peers.by_client_random ≡ none
      → IsAdmitting n
          (length w.peers.heap)
          w.peers.next_id
          (record w { peers = registered w.peers addr r env.now })
  new_client n w addr r s fresh = record {
    server = record {
      store = registered-IsStore w.peers addr r env.now s.store fresh (omega (arith, s.room));
      distinct = insert-KeysDistinct w.peers.next_id _ w.peers.by_id s.distinct;
      room = omega (arith, s.room);
    };
    same_id = ap (λ (q : Peer). q.id) (deref-append_new w.peers.heap _);
    here = lookup-insert_self w.peers.next_id _ w.peers.by_id;
    none_yet = ap (λ (q : Peer). q.tunnel_ip) (deref-append_new w.peers.heap _);
  }

  -- `handleAloha` after `register` found no client with that random, and after it found one.
  pub handle_aloha_new :
      (w : World) (conn : Conn) (addr : UdpAddr) (msg : Message) (r : Bytes)
      → lookup r w.peers.by_client_random ≡ none
      → handle_aloha crypto cfg cs env (some conn) (some addr) msg r w
        ≡ (admit crypto cfg cs env (some (length w.peers.heap)) msg r
              >>= welcome crypto cfg cs env conn (some addr) (some (length w.peers.heap)) r)
            (record w { peers = registered w.peers addr r env.now })
  unfolding handle_aloha
  handle_aloha_new w conn addr msg r fresh =
      after_ok _ _ w (record w { peers = registered w.peers addr r env.now })
        (some (length w.peers.heap), true)
        (ap (λ (x : PeerStore × Result (Ptr × Bool)). (record w { peers = x.0 }, x.1))
          (register_new w.peers addr r env.now fresh))

  pub handle_aloha_again :
      (w : World) (conn : Conn) (addr : UdpAddr) (msg : Message) (r : Bytes) (x : Ptr)
      → lookup r w.peers.by_client_random ≡ some x
      → handle_aloha crypto cfg cs env (some conn) (some addr) msg r w ≡ (w, ok tt)
  unfolding handle_aloha
  handle_aloha_again w conn addr msg r x again =
      after_ok _ _ w w (x, false)
        (ap (λ (y : PeerStore × Result (Ptr × Bool)). (record w { peers = y.0 }, y.1))
          (register_again w.peers addr r env.now x again))

  -- `handleAloha` keeps the server's invariant and takes one id at most, whatever it answers.
  pub handle_aloha-IsServer :
      (n : ℕ) (conn : Option Conn) (addr : Option UdpAddr) (msg : Message) (r : Bytes)
      → Keeps (IsServer (suc n)) (handle_aloha crypto cfg cs env conn addr msg r) (IsServer n)
  handle_aloha-IsServer n none addr msg r w s = unfold handle_aloha in less_room n w s
  handle_aloha-IsServer n (some conn) none msg r w s = unfold handle_aloha in less_room n w s
  handle_aloha-IsServer n (some conn) (some addr) msg r w s =
      elim (Option-cases (lookup r w.peers.by_client_random)) [
        | inl fresh ↦ rw (handle_aloha_new w conn addr msg r fresh) (
            after (λ _. IsServer n) (λ _. IsServer n) (IsServer n) _ _
              (admit-IsServer n (length w.peers.heap) w.peers.next_id msg r)
              (welcome-IsServer n conn (some addr) (some (length w.peers.heap)) r)
              (record w { peers = registered w.peers addr r env.now })
              (new_client n w addr r s fresh))
        | inr (x, again) ↦ rw (handle_aloha_again w conn addr msg r x again) (less_room n w s)
      ]

  accept-IsServer :
      (n p seq : ℕ)
      → Keeps
          (IsServer n)
          (on_peer (some p) (λ x. let (y, r) = accept_client_sequence x seq in (y, wrapping r)))
          (IsServer n)
  accept-IsServer n p seq =
      on_peer-IsServer {A = Unit {0}} n (some p)
        (λ x. ((accept_client_sequence x seq).0, wrapping (accept_client_sequence x seq).1))
        (accept-KeepsKeys seq)

  touch-IsServer :
      (n p : ℕ) → Keeps (IsServer n) (on_peer_total (some p) (touch_now env.now)) (IsServer n)
  touch-IsServer n p =
      on_peer-IsServer {A = Unit {0}} n (some p) (λ x. (touch x env.now, ok tt))
        (touch-KeepsKeys env.now)

  pub handle_keepalive-IsServer :
      (n : ℕ) (msg : Message)
      → Keeps (IsServer n) (handle_keepalive crypto cfg cs env msg) (IsServer n)
  unfolding handle_keepalive
  handle_keepalive-IsServer n msg =
      and_then n _ _ (find-IsServer n (λ ps. wrapping (get_by_id ps msg.peer_id)))
        (λ p. and_then n _ _ (accept-IsServer n p msg.sequence) (λ _. touch-IsServer n p))

  deliver-IsServer :
      (n : ℕ) (tun : Tun) (payload : Bytes)
      → Keeps (IsServer n) (deliver crypto cfg cs env tun payload) (IsServer n)
  deliver-IsServer n tun payload =
      after_attempt (IsServer n) (λ _. IsServer n) (IsServer n) _ _ (call-IsServer n _ _)
        (λ answer. lift-IsServer n _)

  pub handle_data-IsServer :
      (n : ℕ) (tun : Tun) (addr : Option UdpAddr) (message : Message)
      → Keeps (IsServer n) (handle_data crypto cfg cs env tun addr message) (IsServer n)
  unfolding handle_data
  handle_data-IsServer n tun none message = λ w s. s
  handle_data-IsServer n tun (some addr) message = and_then n _ _ (lift-IsServer n _) (λ _.
      and_then n _ _ (find-IsServer n (λ ps. or_drop (get_by_id ps message.peer_id))) (λ p.
        and_then n _ _ (read-IsServer {A = Option UdpAddr} n (some p) (λ x. x.addr))
          (λ registered_addr. and_then n _ _ (lift-IsServer n _) (λ _.
            and_then n _ _ (accept-IsServer n p message.sequence) (λ _.
              and_then n _ _ (deliver-IsServer n tun message.payload) (λ _. touch-IsServer n p))))))
