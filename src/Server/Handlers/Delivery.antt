-- ===== src/Server/Handlers/Delivery.antt =====
-- internal/server/handler.go: what `handleData` hands to the TUN device, and when.
use elevpn.Prelude.{
  ℕ, ◌<◌, ◌≡◌, ◌⊎◌, inl, inr, refl, sym, ap, ◌∙◌, true, ◌==◌, Bool-cases, Option, none, some, List,
  [], ◌∷◌, ◌++◌, length, arith, Result, ok, err, wrapping, wrapping-eq-ok, reject, reject-eq-ok,
  ne_of, of_ne, ok-ne-err, ==_iff, err-ne-ok, ok-injective, sentinel, wrap, drop_packet,
}
use elevpn.Bytes.{Bytes}
use elevpn.Net.{UdpAddr, ip_equal}
use elevpn.Protocol.Message.{Message}
use elevpn.Protocol.Aead.{Crypto, CipherSuite}
use elevpn.Protocol.ReplayWindow.{accept}
use elevpn.Server.Peer.{Peer, accept_client_sequence}
use elevpn.Server.PeerStore.{deref, get_by_id}
use elevpn.Server.Config.{ServerConfig}
use elevpn.Server.Action.{Call, World, ◌>>◌, lift, on_peer_total, call, write_tun}
use elevpn.Server.Action.Kept.{Keeps, Keeps-world, after, after_attempt, bind_elim}
use elevpn.Server.Handlers.{Env, Tun, handle_data, or_drop, check_sender, deliver, touch_now}

-- The message is one of the peer at `p`: the sender has the address that the peer registered with, and
-- the peer's replay window accepts the sequence.
pub record IsAuthentic (w : World) (addr : UdpAddr) (message : Message) (p : ℕ) : Type 0 where
  pub full : 0 < length message.payload
  pub known : get_by_id w.peers message.peer_id ≡ ok p
  pub registered :
      (a : UdpAddr) × ((deref w.peers.heap p).addr ≡ some a)
      × (ip_equal a.ip addr.ip ≡ true)
      × (a.port ≡ addr.port)
  pub fresh : (accept (deref w.peers.heap p).client_replay_window message.sequence).1 ≡ ok tt

or_drop-eq-ok : {A : Type 0} (r : Result A) {a : A} → or_drop r ≡ ok a → r ≡ ok a
or_drop-eq-ok (ok b) h = h
or_drop-eq-ok (err e) h = absurd (err-ne-ok h)

-- The payload was written, and nothing else.
Delivered : World → Message → World × Result (Unit {0}) → Type 0
Delivered w message r = r.0.calls ≡ w.calls ++ (write_tun message.payload ∷ [])

-- The calls alone, for what runs after the write.
CallsAre : List Call → World → Type 0
CallsAre calls w = w.calls ≡ calls

module _ (crypto : Crypto) (cfg : ServerConfig) (cs : CipherSuite) (env : Env) where
  sender-eq-ok :
      (registered : Option UdpAddr) (addr : UdpAddr)
      → check_sender crypto cfg cs env registered addr ≡ ok tt
      → (a : UdpAddr) × (registered ≡ some a)
        × (ip_equal a.ip addr.ip ≡ true)
        × (a.port ≡ addr.port)
  sender-eq-ok none addr h = absurd (err-ne-ok h)
  sender-eq-ok (some a) addr h = elim (Bool-cases (ip_equal a.ip addr.ip)) [
    | inr f ↦ absurd (err-ne-ok (rw f at h))
    | inl t ↦ elim (Bool-cases (a.port == addr.port)) [
      | inr f ↦ absurd (err-ne-ok (rw (t, f) at h))
      | inl u ↦ (a, refl, t, (==_iff a.port addr.port).0 u)
    ]
  ]

  sender_passes :
      (registered : Option UdpAddr) (a addr : UdpAddr)
      → registered ≡ some a
      → ip_equal a.ip addr.ip ≡ true
      → a.port ≡ addr.port
      → check_sender crypto cfg cs env registered addr ≡ ok tt
  sender_passes registered a addr e t u =
      let same : (a.port == addr.port) ≡ true = (==_iff a.port addr.port).1 u in
      rw (e, t, same) refl

  -- The write and what follows it make this one call.
  written :
      (tun : Tun) (payload : Bytes) (p : ℕ) (w : World)
      → ((deliver crypto cfg cs env tun payload >> on_peer_total (some p) (touch_now env.now))
          w).0.calls
        ≡ w.calls ++ (write_tun payload ∷ [])
  unfolding CallsAre
  written tun payload p w =
      Keeps-world (CallsAre w.calls) (CallsAre (w.calls ++ (write_tun payload ∷ [])))
        (deliver crypto cfg cs env tun payload >> on_peer_total (some p) (touch_now env.now))
        (after (λ _. CallsAre (w.calls ++ (write_tun payload ∷ [])))
          (λ _. CallsAre (w.calls ++ (write_tun payload ∷ [])))
          (CallsAre (w.calls ++ (write_tun payload ∷ []))) _ _
          (after_attempt (CallsAre (w.calls ++ (write_tun payload ∷ [])))
            (λ _. CallsAre (w.calls ++ (write_tun payload ∷ [])))
            (CallsAre (w.calls ++ (write_tun payload ∷ []))) _ _ (called (tun payload))
            (λ r. lifted _))
          (λ _ v h. h))
        w refl
    where
      called :
          (answer : Result ℕ)
          → Keeps
              (CallsAre w.calls)
              (call (write_tun payload) answer)
              (CallsAre (w.calls ++ (write_tun payload ∷ [])))
      called (ok n) v h = ap (λ (l : List Call). l ++ (write_tun payload ∷ [])) h
      called (err e) v h = ap (λ (l : List Call). l ++ (write_tun payload ∷ [])) h

      lifted :
          {A : Type 0} (r : Result A)
          → Keeps
              (CallsAre (w.calls ++ (write_tun payload ∷ [])))
              (lift r)
              (CallsAre (w.calls ++ (write_tun payload ∷ [])))
      lifted (ok a) v h = h
      lifted (err e) v h = h

  accept-fresh :
      (x : Peer) (seq : ℕ)
      → wrapping (accept_client_sequence x seq).1 ≡ ok tt
      → (accept x.client_replay_window seq).1 ≡ ok tt
  unfolding accept_client_sequence
  accept-fresh x seq h = wrapping-eq-ok _ (wrapping-eq-ok _ h)

  fresh-accept :
      (x : Peer) (seq : ℕ)
      → (accept x.client_replay_window seq).1 ≡ ok tt
      → wrapping (accept_client_sequence x seq).1 ≡ ok tt
  unfolding accept_client_sequence
  fresh-accept x seq h = rw h refl

  -- Nothing was written, or the payload of an authentic message was, once.
  Written : World → UdpAddr → Message → World × Result (Unit {0}) → Type 0
  Written w addr message r =
      (r.0.calls ≡ w.calls)
      ⊎ ((p : ℕ) × IsAuthentic w addr message p
          × (r.0.calls ≡ w.calls ++ (write_tun message.payload ∷ [])))

  -- `handleData` writes to the TUN device only the payload of an authentic message, once, and makes no
  -- other call; a message that is not authentic makes none.
  pub handle_data_calls :
      (tun : Tun) (addr : UdpAddr) (message : Message) (w : World)
      → let after = (handle_data crypto cfg cs env tun (some addr) message w).0 in
        (after.calls ≡ w.calls)
        ⊎ ((p : ℕ) × IsAuthentic w addr message p
            × (after.calls ≡ w.calls ++ (write_tun message.payload ∷ [])))
  unfolding handle_data Written
  handle_data_calls tun addr message w =
      bind_elim (Written w addr message) _ _ w
        (λ _ full.
          bind_elim (Written w addr message) _ _ w
            (λ p known.
              bind_elim (Written w addr message) _ _ w
                (λ registered read.
                  bind_elim (Written w addr message) _ _ w
                    (λ _ sender.
                      bind_elim (Written w addr message) _ _ w
                        (λ _ fresh. inr (
                          p,
                          record {
                            full = nonempty (length message.payload) full;
                            known = or_drop-eq-ok _ known;
                            registered = sender-eq-ok (deref w.peers.heap p).addr addr (
                                ap (λ (o : Option UdpAddr). check_sender crypto cfg cs env o addr)
                                  (ok-injective read)
                                ∙ sender);
                            fresh = accept-fresh (deref w.peers.heap p) message.sequence fresh;
                          },
                          written tun message.payload p _,
                        ))
                        (λ _ _. inl refl))
                    (λ _ _. inl refl))
                (λ _ _. inl refl))
            (λ _ _. inl refl))
        (λ _ _. inl refl)
    where
      nonempty : (n : ℕ) → reject (n == 0) (wrap (sentinel drop_packet)) ≡ ok tt → 0 < n
      nonempty n h = let ne = ne_of n 0 (reject-eq-ok _ _ h) in omega (arith, ne)

  -- `handleData` hands the payload of every authentic message to the TUN device, once, and makes no other
  -- call.
  pub handle_data_delivers :
      (tun : Tun) (addr : UdpAddr) (message : Message) (w : World) (p : ℕ)
      → IsAuthentic w addr message p
      → (handle_data crypto cfg cs env tun (some addr) message w).0.calls
        ≡ w.calls ++ (write_tun message.payload ∷ [])
  unfolding handle_data Delivered
  handle_data_delivers tun addr message w p good =
      let (a, at, ip, port) = good.registered in
      bind_elim (Delivered w message) _ _ w
        (λ _ _.
          bind_elim (Delivered w message) _ _ w
            (λ q found.
              bind_elim (Delivered w message) _ _ w
                (λ o read.
                  let own : (deref w.peers.heap p).addr ≡ o =
                    ap (λ (i : ℕ). (deref w.peers.heap i).addr) (same q found)
                    ∙ ok-injective read in
                  bind_elim (Delivered w message) _ _ w
                    (λ _ _.
                      bind_elim (Delivered w message) _ _ w (λ _ _. written tun message.payload q _)
                        (λ e h. absurd (
                          ok-ne-err (
                            sym (fresh-accept (deref w.peers.heap p) message.sequence good.fresh)
                            ∙ ap
                                (λ (i : ℕ).
                                  wrapping
                                    (accept_client_sequence (deref w.peers.heap i)
                                      message.sequence).1)
                                (same q found)
                            ∙ h))))
                    (λ e h.
                      absurd (ok-ne-err (sym (sender_passes o a addr (sym own ∙ at) ip port) ∙ h))))
                (λ e h. absurd (ok-ne-err h)))
            (λ e h. absurd (ok-ne-err (sym known ∙ h))))
        (λ e h. absurd (ok-ne-err (sym nonempty ∙ h)))
    where
      known : or_drop (get_by_id w.peers message.peer_id) ≡ ok p
      known = rw good.known refl

      same : (q : ℕ) → or_drop (get_by_id w.peers message.peer_id) ≡ ok q → p ≡ q
      same q found = ok-injective (sym known ∙ found)

      nonempty : reject (length message.payload == 0) (wrap (sentinel drop_packet)) ≡ ok tt
      nonempty = rw (of_ne (length message.payload) 0 (omega (arith, good.full))) refl
