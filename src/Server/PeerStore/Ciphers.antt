-- ===== src/Server/PeerStore/Ciphers.antt =====
-- internal/server/peer_store.go: what `setTunnelIP` leaves as it is.
use elevpn.Prelude.{ℕ, ◌≡◌, refl, inl, inr, none, some, Option-cases, nat_eq, bytes_eq}
use elevpn.Prelude.Maps.{lookup}
use elevpn.Net.{addr_eq}
use elevpn.Protocol.Payload.{Addr}
use elevpn.Server.Peer
use elevpn.Server.PeerStore.{PeerStore, deref, set_found_tunnel_ip, set_tunnel_ip}
use elevpn.Server.PeerStore.Invariant.{deref-update}

-- The cipher of a peer is not what `setTunnelIP` of the store changes.
found-cipher :
    (ps : PeerStore) (q p : ℕ) (ip : Addr)
    → (deref (set_found_tunnel_ip ps q ip).0.heap p).cipher ≡ (deref ps.heap p).cipher
unfolding set_found_tunnel_ip
found-cipher ps q p ip = elim (Option-cases (lookup ip ps.by_tunnel_ip)) [
  | inl free ↦
      rw (free, set_found_tunnel_ip)
        (deref-update (λ x. x.cipher) (λ x. Peer.set_tunnel_ip x ip)
          (unfold Peer.set_tunnel_ip in λ x. refl) ps.heap q p)
  | inr (_, taken) ↦ rw (taken, set_found_tunnel_ip) refl
]

pub set_tunnel_ip-cipher :
    (ps : PeerStore) (id p : ℕ) (ip : Addr)
    → (deref (set_tunnel_ip ps id ip).0.heap p).cipher ≡ (deref ps.heap p).cipher
unfolding set_tunnel_ip
set_tunnel_ip-cipher ps id p ip = elim (Option-cases (lookup id ps.by_id)) [
  | inl nobody ↦ rw (nobody, set_tunnel_ip) refl
  | inr (none, nil) ↦ rw (nil, set_tunnel_ip) refl
  | inr (some q, there) ↦ rw (there, set_tunnel_ip) (found-cipher ps q p ip)
]
