-- ===== src/Server/Handlers/Keyed.antt =====
-- internal/server/handler.go: the cipher that `handleAloha` leaves in the peer.
use elevpn.Prelude.{
  ℕ, ◌<◌, ◌≡◌, refl, sym, ap, ap₂, subst, ◌∙◌, Option, none, some, length, Result, ok, err,
  ok-injective, length-set, arith, nat_eq, bytes_eq, err-ne-ok, length-append, [], ◌∷◌,
}
use elevpn.Prelude.Maps.{lookup}
use elevpn.Bytes.{Bytes}
use elevpn.Protocol.Message.{Message}
use elevpn.Protocol.Payload.{Addr}
use elevpn.Protocol.Aead.{Crypto, IsCrypto, Cipher, CipherSuite, new_peer_cipher}
use elevpn.Server.Peer.{Peer, new_peer, set_cipher, accept_client_sequence, next_send_sequence}
use elevpn.Server.PeerStore.{Ptr, PeerStore, deref, set_tunnel_ip}
use elevpn.Server.PeerStore.Registration.{registered}
use elevpn.Server.PeerStore.Ciphers.{set_tunnel_ip-cipher}
use elevpn.Server.PeerStore.Invariant.{deref-update, deref-set_self, deref-append_new}
use elevpn.Server.Config.{ServerConfig}
use elevpn.Server.Action.{
  Call, write_udp, World, Action, lift, read_peer, call, on_store, on_peer, on_peer_total, ◌>>=◌,
}
use elevpn.Server.Action.Kept.{
  bind_elim, Keeps-world, Post, Leaves, after, leaves_lift, leaves_read, leaves_on_peer,
}
use elevpn.Server.Handlers.Admitted.{Admitted, admit_done}
use elevpn.Server.Handlers.Kept.{handle_aloha_new}
use elevpn.Server.Handlers.{Env, Conn, admit, welcome, handle_aloha}
use elevpn.Net.{UdpAddr, addr_eq}
use elevpn.Server.Allocation.{allocate_tunnel_ip}

module _ (crypto : Crypto) (cfg : ServerConfig) (cs : CipherSuite) (env : Env) (p i : ℕ)
    (r server_random : Bytes) where
  abbrev Here : World → Type 0
  Here w = ((deref w.peers.heap p).id ≡ i) × (p < length w.peers.heap)

  -- The peer has the cipher that both sides derive.
  abbrev pub Keyed : World → Type 0
  Keyed w =
      (c : Cipher) × (new_peer_cipher crypto cs i r server_random ≡ ok c)
      × ((deref w.peers.heap p).cipher ≡ some c)

  abbrev Any : World → Type 0
  Any w = Unit {0}

  on_peer-Keyed :
      {A : Type 0} (ptr : Ptr) (method : Peer → Peer × Result A)
      → ((x : Peer) → (method x).0.cipher ≡ x.cipher)
      → Leaves Keyed (on_peer ptr method) (λ _. Keyed) Keyed
  on_peer-Keyed ptr method keep =
      leaves_on_peer ptr method (λ w k. k)
        (λ w q (c, made, e).
          (c, made, deref-update (λ x. x.cipher) (λ x. (method x).0) keep w.peers.heap q p ∙ e))

  given_ip-Keyed :
      (id : ℕ) (ip : Addr) → Leaves Keyed (on_store (λ ps. set_tunnel_ip ps id ip)) (λ _. Keyed) Any
  given_ip-Keyed id ip w (c, made, e) =
      go (set_tunnel_ip w.peers id ip) (c, made, set_tunnel_ip-cipher w.peers id p ip ∙ e)
    where
      go :
          (x : PeerStore × Result (Unit {0}))
          → Keyed (record w { peers = x.0 })
          → Post Any (λ _. Keyed) (record w { peers = x.0 }, x.1)
      go (ps, ok u) k = k
      go (ps, err e) k = tt

  -- The peer keeps its id and its place.
  on_peer-Here :
      {A : Type 0} (ptr : Ptr) (method : Peer → Peer × Result A)
      → ((x : Peer) → (method x).0.id ≡ x.id)
      → Leaves Here (on_peer ptr method) (λ _. Here) Any
  on_peer-Here ptr method keep =
      leaves_on_peer ptr method (λ w _. tt)
        (λ w q (same, inside). (
          deref-update (λ x. x.id) (λ x. (method x).0) keep w.peers.heap q p ∙ same,
          omega (arith, length-set w.peers.heap q (method (deref w.peers.heap q)).0),
        ))

  set_cipher-Keyed :
      (c : Cipher)
      → new_peer_cipher crypto cs i r server_random ≡ ok c
      → Leaves Here (on_peer_total (some p) (λ x. (set_cipher x (some c), tt))) (λ _. Keyed) Any
  unfolding set_cipher
  set_cipher-Keyed c made w (same, inside) = (
    c,
    made,
    ap (λ (x : Peer). x.cipher)
        (deref-set_self w.peers.heap p (set_cipher (deref w.peers.heap p) (some c)) inside),
  )

  admit-Keyed :
      (msg : Message)
      → env.random ≡ ok server_random
      → Leaves Here (admit crypto cfg cs env (some p) msg r) (λ _. Keyed) Any
  unfolding admit
  admit-Keyed msg random =
      after (λ _. Here) (λ _. Keyed) Any _ _
        (on_peer-Here (some p) (λ x. accept_client_sequence x msg.sequence)
          (unfold accept_client_sequence in λ x. refl))
        (λ _.
          after (λ sr w. Here w × (env.random ≡ ok sr)) (λ _. Keyed) Any _ _
            (leaves_lift env.random (λ w _. tt))
            (λ sr.
              after
                (λ id w.
                  (Here w × (env.random ≡ ok sr))
                  × ((q : ℕ) → some p ≡ some q → id ≡ (deref w.peers.heap q).id))
                (λ _. Keyed) Any _ _ (leaves_read (some p) (λ x. x.id) (λ w _. tt))
                (λ id w ((here, got), read).
                  let own : id ≡ i = read p refl ∙ here.0 in
                  let drawn : sr ≡ server_random = ok-injective (sym got ∙ random) in
                  after (λ c w. Here w × (new_peer_cipher crypto cs id r sr ≡ ok c)) (λ _. Keyed)
                    Any _ _ (leaves_lift (new_peer_cipher crypto cs id r sr) (λ w _. tt))
                    (λ c w' (here', made).
                      after (λ _. Keyed) (λ _. Keyed) Any _ _
                        (set_cipher-Keyed c (
                          ap₂ (λ (x : ℕ) (y : Bytes). new_peer_cipher crypto cs x r y) (sym own)
                            (sym drawn)
                          ∙ made))
                        (λ _.
                          after
                            (λ ip w. Keyed w × (allocate_tunnel_ip cfg.vpn_network_cidr id ≡ ok ip))
                            (λ _. Keyed) Any _ _
                            (leaves_lift (allocate_tunnel_ip cfg.vpn_network_cidr id) (λ w _. tt))
                            (λ ip w'' (keyed, _).
                              after (λ _. Keyed) (λ _. Keyed) Any _ _ (given_ip-Keyed id ip)
                                (λ _ w. λ k. k) w'' keyed))
                        w' here')
                    w here)))

  lift-Keyed : {A : Type 0} (q : Result A) → Leaves Keyed (lift q) (λ _. Keyed) Keyed
  lift-Keyed (ok a) w k = k
  lift-Keyed (err e) w k = k

  read-Keyed :
      {A : Type 0} (ptr : Ptr) (field : Peer → A)
      → Leaves Keyed (read_peer ptr field) (λ _. Keyed) Keyed
  read-Keyed none field w k = k
  read-Keyed (some q) field w k = k

  call-Keyed : (c : Call) (answer : Result ℕ) → Leaves Keyed (call c answer) (λ _. Keyed) Keyed
  call-Keyed c (ok n) w k = k
  call-Keyed c (err e) w k = k

  then-Keyed :
      {A B : Type 0} (m : Action A) (f : A → Action B)
      → Leaves Keyed m (λ _. Keyed) Keyed
      → ((a : A) → Leaves Keyed (f a) (λ _. Keyed) Keyed)
      → Leaves Keyed (m >>= f) (λ _. Keyed) Keyed
  then-Keyed = after (λ _. Keyed) (λ _. Keyed) Keyed

  welcome-Keyed :
      (conn : Conn) (addr : Option UdpAddr) (ptr : Ptr) (given : Bytes × Addr)
      → Leaves Keyed (welcome crypto cfg cs env conn addr ptr r given) (λ _. Keyed) Keyed
  unfolding welcome
  welcome-Keyed conn addr ptr (random, ip) = then-Keyed _ _ (lift-Keyed _) (λ payload.
      then-Keyed _ _
        (on_peer-Keyed ptr (λ x. ((next_send_sequence x).0, ok (next_send_sequence x).1))
          (unfold next_send_sequence in λ x. refl))
        (λ seq. then-Keyed _ _ (read-Keyed ptr _) (λ id. then-Keyed _ _ (lift-Keyed _) (λ c.
          then-Keyed _ _ (lift-Keyed _) (λ packet.
            then-Keyed _ _ (call-Keyed (write_udp packet addr) (conn packet addr))
              (λ written. lift-Keyed _))))))

post_ok :
    {A : Type 0} (R : World → Type 0) (x : World × Result A) {a : A}
    → Post (λ _. Unit {0}) (λ _. R) x
    → x.1 ≡ ok a
    → R x.0
post_ok R (w, ok b) k h = k
post_ok R (w, err e) k h = absurd (err-ne-ok h)

-- Once its address is given, the peer of a new client has the cipher of the id and both randoms, whatever happens to
-- the WELCOME.
pub handle_aloha-Keyed :
    (crypto : Crypto) (good : IsCrypto crypto) (cfg : ServerConfig) (cs : CipherSuite) (env : Env)
    (w : World) (addr : UdpAddr) (conn : Conn) (msg : Message) (r server_random : Bytes) (ip : Addr)
    → 0 < msg.sequence
    → env.random ≡ ok server_random
    → lookup r w.peers.by_client_random ≡ none
    → allocate_tunnel_ip cfg.vpn_network_cidr w.peers.next_id ≡ ok ip
    → lookup ip w.peers.by_tunnel_ip ≡ none
    → Keyed crypto cfg cs env
        (length w.peers.heap)
        w.peers.next_id
        r
        server_random
        (handle_aloha crypto cfg cs env (some conn) (some addr) msg r w).0
unfolding Admitted
handle_aloha-Keyed crypto good cfg cs env w addr conn msg r server_random ip numbered random fresh
      given free =
    let p = length w.peers.heap in
    let i = w.peers.next_id in
    let K : World → Type 0 = Keyed crypto cfg cs env p i r server_random in
    let start : World = record w { peers = registered w.peers addr r env.now } in
    let added = deref-append_new w.peers.heap (new_peer i (some addr) r env.now) in
    let (done, _) =
      admit_done crypto good cfg cs env w addr msg r server_random numbered random ip given free in
    let admitted : K (admit crypto cfg cs env (some p) msg r start).0 =
      post_ok K (admit crypto cfg cs env (some p) msg r start)
        (admit-Keyed crypto cfg cs env p i r server_random msg random start (
          ap (λ (x : Peer). x.id) added,
          omega (arith, length-append w.peers.heap (new_peer i (some addr) r env.now ∷ [])),
        ))
        done in
    subst (λ (x : World × Result (Unit {0})). K x.0)
      (sym (handle_aloha_new crypto cfg cs env w conn addr msg r fresh))
      (bind_elim (λ (x : World × Result (Unit {0})). K x.0) _ _ start
        (λ x _.
          Keeps-world K K (welcome crypto cfg cs env conn (some addr) (some p) r x)
            (welcome-Keyed crypto cfg cs env p i r server_random conn (some addr) (some p) x)
            (admit crypto cfg cs env (some p) msg r start).0 admitted)
        (λ _ _. admitted))
