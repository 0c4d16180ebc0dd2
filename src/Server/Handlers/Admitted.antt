-- ===== src/Server/Handlers/Admitted.antt =====
-- internal/server/handler.go: `handleAloha` for a new client while addresses are left: up to the tunnel IP.
use elevpn.Prelude.{
  ℕ, ◌<◌, ◌≡◌, refl, sym, ap, ap₂, subst, ◌∙◌, none, some, length, nat_eq, bytes_eq, Result, ok,
  ok-ne-err, ok-injective,
}
use elevpn.Prelude.Maps.{lookup, lookup-insert_self}
use elevpn.Bytes.{Bytes}
use elevpn.Net.{UdpAddr, addr_eq}
use elevpn.Protocol.Message.{Message}
use elevpn.Protocol.Payload.{Addr}
use elevpn.Protocol.Aead.{Crypto, IsCrypto, Cipher, CipherSuite}
use elevpn.Server.Peer.{Peer, new_peer, accept_client_sequence, set_cipher, next_send_sequence}
use elevpn.Server.Peer
use elevpn.Server.PeerStore.{PeerStore, update, set_tunnel_ip}
use elevpn.Server.PeerStore.Registration.{registered}
use elevpn.Server.PeerStore.Tunnel.{tunnelled, set_tunnel_ip_new}
use elevpn.Server.Allocation.{allocate_tunnel_ip}
use elevpn.Server.Config.{ServerConfig}
use elevpn.Server.Action.{World, ◌>>=◌, ◌>>◌, lift, on_store, read_peer}
use elevpn.Server.Action.Kept.{bind_elim}
use elevpn.Server.Handlers.{Env, admit}
use elevpn.Server.Handlers.Admission.{
  IsNew, update-IsNew, registered_world, accepted_world, accepted-IsNew, accepts, has_cipher,
  own_id,
}

module _ (crypto : Crypto) (good : IsCrypto crypto) (cfg : ServerConfig) (cs : CipherSuite)
    (env : Env) (w : World) (addr : UdpAddr) (msg : Message) (r server_random : Bytes)
    (numbered : 0 < msg.sequence) (random : env.random ≡ ok server_random) where
  -- The peer got the address, and the caller the server's random and the address; nothing was sent.
  unfoldable pub Admitted : Addr → World × Result (Bytes × Addr) → Type 0
  Admitted ip x =
      (x.1 ≡ ok (server_random, ip)) × IsNew w.peers.next_id (length w.peers.heap) w.calls x.0

  abbrev here_world : Cipher → World
  here_world c = record w {
    peers =
        update
          (accepted_world crypto good cfg cs env w addr msg r server_random numbered random).peers
          (length w.peers.heap) (λ x. set_cipher x (some c));
  }

  here-IsNew : (c : Cipher) → IsNew w.peers.next_id (length w.peers.heap) w.calls (here_world c)
  here-IsNew c =
      update-IsNew w.peers.next_id (length w.peers.heap) w.calls (λ x. set_cipher x (some c))
        (unfold set_cipher in λ x. refl) (unfold set_cipher in λ x. refl)
        (accepted_world crypto good cfg cs env w addr msg r server_random numbered random)
        (length w.peers.heap)
        (accepted-IsNew crypto good cfg cs env w addr msg r server_random numbered random)

  tunnel_given :
      (id : ℕ) (ip : Addr) (c : Cipher)
      → w.peers.next_id ≡ id
      → lookup ip w.peers.by_tunnel_ip ≡ none
      → set_tunnel_ip (here_world c).peers id ip
        ≡ (tunnelled (here_world c).peers (length w.peers.heap) ip, ok tt)
  tunnel_given id ip c e free =
      set_tunnel_ip_new (here_world c).peers id (length w.peers.heap) ip
        (ap (λ (i : ℕ). lookup i (registered w.peers addr r env.now).by_id) (sym e)
          ∙ lookup-insert_self w.peers.next_id _ w.peers.by_id)
        free

  tunnelled-IsNew :
      (ip : Addr) (c : Cipher)
      → IsNew w.peers.next_id
          (length w.peers.heap)
          w.calls
          (record w { peers = tunnelled (here_world c).peers (length w.peers.heap) ip })
  tunnelled-IsNew ip c =
      let new =
        update-IsNew w.peers.next_id (length w.peers.heap) w.calls (λ x. Peer.set_tunnel_ip x ip)
          (unfold Peer.set_tunnel_ip in λ x. refl) (unfold Peer.set_tunnel_ip in λ x. refl)
          (here_world c) (length w.peers.heap) (here-IsNew c) in
      record { same_id = new.same_id; unsent = new.unsent; no_calls = new.no_calls }

  own_id_here :
      (id : ℕ)
      → (read_peer
          (some (length w.peers.heap))
          (λ x. x.id)
          (accepted_world crypto good cfg cs env w addr msg r server_random numbered random)).1
        ≡ ok id
      → w.peers.next_id ≡ id
  own_id_here = own_id crypto good cfg cs env w addr msg r server_random numbered random

  module _ (ip : Addr) (given : allocate_tunnel_ip cfg.vpn_network_cidr w.peers.next_id ≡ ok ip)
      (free : lookup ip w.peers.by_tunnel_ip ≡ none) where
    -- From `allocateTunnelIP` on.
    address_done :
        (id : ℕ) (c : Cipher) (sr : Bytes)
        → w.peers.next_id ≡ id
        → sr ≡ server_random
        → Admitted ip (
            (lift (allocate_tunnel_ip cfg.vpn_network_cidr id) >>= λ t.
            on_store (λ ps. set_tunnel_ip ps id t) >> lift {A = Bytes × Addr} (ok (sr, t)))
              (here_world c))
    unfolding Admitted
    address_done id c sr own same_random =
        let given_here = ap (allocate_tunnel_ip cfg.vpn_network_cidr) (sym own) ∙ given in
        bind_elim (Admitted ip) _ _ _
          (λ t got.
            let same : t ≡ ip = ok-injective (sym got ∙ given_here) in
            let done =
              tunnel_given id t c own
                (ap (λ (x : Addr). lookup x w.peers.by_tunnel_ip) same ∙ free) in
            bind_elim (Admitted ip) _ _ _
              (λ _ _. (
                ap₂ (λ (x : Bytes) (y : Addr). ok (x, y)) same_random same,
                subst
                    (λ (x : PeerStore × Result (Unit {0})).
                      IsNew w.peers.next_id (length w.peers.heap) w.calls
                        (record w { peers = x.0 }))
                    (sym done) (tunnelled-IsNew t c),
              ))
              (λ e h.
                absurd
                  (ok-ne-err (sym (ap (λ (x : PeerStore × Result (Unit {0})). x.1) done) ∙ h))))
          (λ e h. absurd (ok-ne-err (sym given_here ∙ h)))

    pub admit_done : Admitted ip (
        admit crypto cfg cs env
          (some (length w.peers.heap))
          msg
          r
          (registered_world crypto good cfg cs env w addr msg r server_random numbered random))
    unfolding admit
    admit_done =
        bind_elim (Admitted ip) _ _ _
          (λ _ _.
            bind_elim (Admitted ip) _ _ _
              (λ sr q.
                bind_elim (Admitted ip) _ _ _
                  (λ id read.
                    bind_elim (Admitted ip) _ _ _
                      (λ c _.
                        bind_elim (Admitted ip) _ _ _
                          (λ _ _.
                            address_done id c sr (own_id_here id read)
                              (ok-injective (sym q ∙ random)))
                          (λ e h. absurd (ok-ne-err h)))
                      (λ e h. absurd (
                        has_cipher crypto good cfg cs env w addr msg r server_random numbered random
                          id sr e h)))
                  (λ e h. absurd (ok-ne-err h)))
              (λ e h. absurd (ok-ne-err (sym random ∙ h))))
          (λ e h.
            absurd (accepts crypto good cfg cs env w addr msg r server_random numbered random e h))
