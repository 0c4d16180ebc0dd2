-- ===== src/Server/Handlers/Admission.antt =====
-- internal/server/handler.go: `handleAloha` for a new client, when no address is left.
use elevpn.Prelude.{
  ℕ, ◌<◌, ◌≡◌, ◌≢◌, refl, sym, ap, ◌∙◌, none, some, List, length, arith, nat_eq, bytes_eq, Error,
  Result, ok, err, fault, invalid_ip_range, ok-ne-err, err-ne-ok, ok-injective, err-injective,
  of_ne,
}
use elevpn.Prelude.Maps.{lookup}
use elevpn.Bytes.{Bytes}
use elevpn.Net.{UdpAddr, addr_eq}
use elevpn.Protocol.Message.{Message}
use elevpn.Protocol.ReplayWindow.{accept, new_window}
use elevpn.Protocol.Aead.{Crypto, IsCrypto, CipherSuite, new_peer_cipher}
use elevpn.Protocol.Aead.Nonce.{new_peer_cipher_total}
use elevpn.Server.Peer.{Peer, new_peer, accept_client_sequence}
use elevpn.Server.PeerStore.{deref, update}
use elevpn.Server.PeerStore.Invariant.{deref-update, deref-append_new}
use elevpn.Server.PeerStore.Registration.{registered}
use elevpn.Server.Allocation.{allocate_tunnel_ip}
use elevpn.Server.Config.{ServerConfig}
use elevpn.Server.Action.{Call, World, read_peer}
use elevpn.Server.Action.Kept.{bind_elim}
use elevpn.Server.Handlers.{Env, Conn, admit, handle_aloha, handle_packet_error}
use elevpn.Server.Handlers.Kept.{handle_aloha_new}

-- A peer that has sent nothing yet, in a world where no call was made since.
pub record IsNew (id p : ℕ) (calls : List Call) (w : World) : Type 0 where
  pub same_id : (deref w.peers.heap p).id ≡ id
  pub unsent : (deref w.peers.heap p).server_send_sequence ≡ 0
  pub no_calls : w.calls ≡ calls

pub update-IsNew :
    (id p : ℕ) (calls : List Call) (method : Peer → Peer)
    → ((x : Peer) → (method x).id ≡ x.id)
    → ((x : Peer) → (method x).server_send_sequence ≡ x.server_send_sequence)
    → (w : World) (i : ℕ) → IsNew id p calls w
    → IsNew id p calls (record w { peers = update w.peers i method })
update-IsNew id p calls method keep_id keep_seq w i s = record {
  same_id = deref-update (λ x. x.id) method keep_id w.peers.heap i p ∙ s.same_id;
  unsent = deref-update (λ x. x.server_send_sequence) method keep_seq w.peers.heap i p ∙ s.unsent;
  no_calls = s.no_calls;
}

-- Its first sequence is accepted, unless it is 0.
accept_first : (seq : ℕ) → 0 < seq → (accept new_window seq).1 ≡ ok tt
unfolding accept
accept_first seq pos = rw (of_ne seq 0 (omega (arith, pos))) refl

accept_new :
    (x : Peer) (seq : ℕ)
    → x.client_replay_window ≡ new_window
    → 0 < seq
    → (accept_client_sequence x seq).1 ≡ ok tt
unfolding accept_client_sequence
accept_new x seq e pos = rw (e, accept_first seq pos) refl

module _ (crypto : Crypto) (good : IsCrypto crypto) (cfg : ServerConfig) (cs : CipherSuite)
    (env : Env) (w : World) (addr : UdpAddr) (msg : Message) (r server_random : Bytes)
    (numbered : 0 < msg.sequence) (random : env.random ≡ ok server_random) where
  -- The world after `register`.
  abbrev pub registered_world : World
  registered_world = record w { peers = registered w.peers addr r env.now }

  the_peer :
      deref registered_world.peers.heap (length w.peers.heap)
      ≡ new_peer w.peers.next_id (some addr) r env.now
  the_peer = deref-append_new w.peers.heap _

  -- The world after `acceptClientSequence`.
  abbrev pub accepted_world : World
  accepted_world = record registered_world {
    peers =
        update registered_world.peers (length w.peers.heap)
          (λ x. (accept_client_sequence x msg.sequence).0);
  }

  pub accepted-IsNew : IsNew w.peers.next_id (length w.peers.heap) w.calls accepted_world
  accepted-IsNew =
      update-IsNew w.peers.next_id (length w.peers.heap) w.calls
        (λ x. (accept_client_sequence x msg.sequence).0)
        (unfold accept_client_sequence in λ x. refl) (unfold accept_client_sequence in λ x. refl)
        registered_world (length w.peers.heap)
        (record {
          same_id = ap (λ (x : Peer). x.id) the_peer;
          unsent = ap (λ (x : Peer). x.server_send_sequence) the_peer;
          no_calls = refl;
        })

  pub accepts :
      (e : Error)
      → (accept_client_sequence
          (deref registered_world.peers.heap (length w.peers.heap))
          msg.sequence).1
        ≢ err e
  accepts e h = ok-ne-err (
      sym (accept_new _ msg.sequence (ap (λ (x : Peer). x.client_replay_window) the_peer) numbered)
      ∙ h)

  pub has_cipher :
      (id : ℕ) (random' : Bytes) (e : Error) → new_peer_cipher crypto cs id r random' ≢ err e
  has_cipher id random' e h =
      let (c, made, _) = new_peer_cipher_total crypto good cs id r random' in
      ok-ne-err (sym made ∙ h)

  pub own_id :
      (id : ℕ)
      → (read_peer (some (length w.peers.heap)) (λ x. x.id) accepted_world).1 ≡ ok id
      → w.peers.next_id ≡ id
  own_id id read = sym accepted-IsNew.same_id ∙ ok-injective read

  Refused : {A : Type 0} → World × Result A → Type 0
  Refused x = x.1 ≡ err (fault invalid_ip_range)

  admit-Refused :
      allocate_tunnel_ip cfg.vpn_network_cidr w.peers.next_id ≡ err (fault invalid_ip_range)
      → Refused (admit crypto cfg cs env (some (length w.peers.heap)) msg r registered_world)
  unfolding admit Refused
  admit-Refused none_left =
      bind_elim Refused _ _ registered_world
        (λ _ _.
          bind_elim Refused _ _ accepted_world
            (λ sr _.
              bind_elim Refused _ _ accepted_world
                (λ id read.
                  bind_elim Refused _ _ accepted_world
                    (λ c _.
                      bind_elim Refused _ _ accepted_world
                        (λ _ _.
                          bind_elim Refused _ _ _
                            (λ ip given. absurd (
                              err-ne-ok (
                                sym none_left
                                ∙ ap (allocate_tunnel_ip cfg.vpn_network_cidr) (own_id id read)
                                ∙ given)))
                            (λ e h.
                              ap (λ (d : Error). err d)
                                (err-injective (
                                  sym h
                                  ∙ ap (allocate_tunnel_ip cfg.vpn_network_cidr)
                                      (sym (own_id id read))
                                  ∙ none_left))))
                        (λ e h. absurd (ok-ne-err h)))
                    (λ e h. absurd (has_cipher id sr e h)))
                (λ e h. absurd (ok-ne-err h)))
            (λ e h. absurd (ok-ne-err (sym random ∙ h))))
        (λ e h. absurd (accepts e h))

  -- `handlePacketError` does not take the error for one of the packet.
  pub handle_aloha_exhausted :
      (conn : Conn)
      → lookup r w.peers.by_client_random ≡ none
      → allocate_tunnel_ip cfg.vpn_network_cidr w.peers.next_id ≡ err (fault invalid_ip_range)
      → handle_packet_error (handle_aloha crypto cfg cs env (some conn) (some addr) msg r w).1
        ≡ err (fault invalid_ip_range)
  unfolding Refused
  handle_aloha_exhausted conn fresh none_left = ap handle_packet_error (
      ap (λ (x : World × Result (Unit {0})). x.1)
        (handle_aloha_new crypto cfg cs env w conn addr msg r fresh)
      ∙ bind_elim Refused _ _ registered_world
          (λ given done. absurd (err-ne-ok (sym (admit-Refused none_left) ∙ done)))
          (λ e stop.
            ap (λ (d : Error). err d) (err-injective (sym stop ∙ admit-Refused none_left))))
