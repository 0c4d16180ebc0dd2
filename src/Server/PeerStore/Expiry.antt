-- ===== src/Server/PeerStore/Expiry.antt =====
-- internal/server/peer_store.go, `deleteExpired`: what the store is after the deletes for one peer.
pub mod Loop
use elevpn.Prelude.{
  ℕ, ◌≡◌, ◌≢◌, ◌⊎◌, inl, inr, refl, sym, ap, subst, ◌∙◌, Option, none, some, length, nat_eq,
  bytes_eq,
}
use elevpn.Prelude.Maps.{lookup, delete, lookup-delete_ne, lookup-delete_cases}
use elevpn.Bytes.{Bytes}
use elevpn.Net.{addr_eq}
use elevpn.Protocol.Payload.{Addr, invalid}
use elevpn.Server.Peer.{Peer, tunnel_ip_snapshot}
use elevpn.Server.PeerStore.{PeerStore, deref, forget}
use elevpn.Server.PeerStore.Invariant.{IsPeerAt, IsStore, Leads, peer_at, same_pointer}

module _ (ps : PeerStore) (id p : ℕ) (s : IsStore ps)
    (here : lookup id ps.by_id ≡ some (some p)) where
  -- Another id leads to another peer.
  other_peer : (j q : ℕ) → IsPeerAt ps j q → id ≢ j → p ≢ q
  other_peer j q at ne e =
      ne
        (sym (peer_at ps id p s here).same_id ∙ ap (λ (r : ℕ). (deref ps.heap r).id) e ∙ at.same_id)

  other_random :
      (j q : ℕ)
      → IsPeerAt ps j q
      → id ≢ j
      → (deref ps.heap p).client_random ≢ (deref ps.heap q).client_random
  other_random j q at ne e = other_peer j q at ne (
      same_pointer (λ (r : Bytes). lookup r ps.by_client_random) _ _ p q
        (peer_at ps id p s here).by_random at.by_random e)

  other_tunnel :
      (j q : ℕ)
      → IsPeerAt ps j q
      → id ≢ j
      → lookup (deref ps.heap q).tunnel_ip ps.by_tunnel_ip ≡ some (some q)
      → (deref ps.heap p).tunnel_ip ≢ (deref ps.heap q).tunnel_ip
  other_tunnel j q at ne l e = elim (peer_at ps id p s here).by_tunnel [
    | inl unset ↦ (s.tunnels (deref ps.heap q).tunnel_ip (some q) l).0 (sym e ∙ unset)
    | inr k ↦
        other_peer j q at ne (same_pointer (λ (a : Addr). lookup a ps.by_tunnel_ip) _ _ p q k l e)
  ]

  -- A peer with another key in one of the maps is another peer, and has another id.
  id_kept :
      (q : ℕ)
      → p ≢ q
      → lookup (deref ps.heap q).id ps.by_id ≡ some (some q)
      → lookup (deref ps.heap q).id (delete id ps.by_id) ≡ some (some q)
  id_kept q ne l =
      lookup-delete_ne id _ ps.by_id
        (λ e. ne (same_pointer (λ (j : ℕ). lookup j ps.by_id) id _ p q here l e))
      ∙ l

  pub forget-IsStore : IsStore (forget ps id p)
  unfolding forget tunnel_ip_snapshot
  forget-IsStore = record {
    ids = λ j x h.
        let (ne, before) = lookup-delete_cases id j x ps.by_id h in
        let (q, e, at) = s.ids j x before in
        (
          q,
          e,
          record {
            allocated = at.allocated;
            same_id = at.same_id;
            older = at.older;
            by_random =
                lookup-delete_ne _ _ ps.by_client_random (other_random j q at ne) ∙ at.by_random;
            by_tunnel = elim at.by_tunnel [
              | inl unset ↦ inl unset
              | inr l ↦ inr (lookup-delete_ne _ _ ps.by_tunnel_ip (other_tunnel j q at ne l) ∙ l)
            ];
          },
        );
    randoms = λ r x h.
        let (ne, before) = lookup-delete_cases _ r x ps.by_client_random h in
        let (q, e, k, l) = s.randoms r x before in
        (
          q,
          e,
          k,
          id_kept q (λ p≡q. ne (ap (λ (t : ℕ). (deref ps.heap t).client_random) p≡q ∙ k)) l,
        );
    tunnels = λ a x h.
        let (ne, before) = lookup-delete_cases _ a x ps.by_tunnel_ip h in
        let (real, (q, e, k, l)) = s.tunnels a x before in
        (
          real,
          (q, e, k, id_kept q (λ p≡q. ne (ap (λ (t : ℕ). (deref ps.heap t).tunnel_ip) p≡q ∙ k)) l),
        );
    next_pos = s.next_pos;
  }
