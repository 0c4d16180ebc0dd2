-- ===== src/Server/PeerStore/Tunnel.antt =====
-- internal/server/peer_store.go: `setTunnelIP` and the agreement of the maps.
use elevpn.Prelude.{
  ℕ_discrete, ℕ, ◌≡◌, ◌≢◌, ◌⊎◌, inl, inr, refl, sym, ap, subst, ◌∙◌, none, some, length-set, arith,
  nat_eq, bytes_eq, ok, err, fault, tunnel_ip_exists,
}
use elevpn.Prelude.Maps.{lookup, insert, lookup-insert_self, lookup-insert_ne, lookup-insert_cases}
use elevpn.Net.{addr_eq}
use elevpn.Protocol.Payload.{Addr, invalid}
use elevpn.Server.Peer.{Peer, new_peer}
use elevpn.Server.Peer
use elevpn.Server.PeerStore.{
  Ptr, PeerStore, deref, update, get_by_tunnel_ip, set_tunnel_ip, set_found_tunnel_ip,
}
use elevpn.Server.PeerStore.Invariant.{
  deref-update, some-ne-none, IsPeerAt, IsStore, peer_at, deref-set_self, deref-set_ne,
}

-- The store after a peer got its tunnel IP.
abbrev pub tunnelled : PeerStore → ℕ → Addr → PeerStore
tunnelled ps p ip =
    let ps' = update ps p (λ peer. Peer.set_tunnel_ip peer ip) in
    record ps' { by_tunnel_ip = insert ip (some p) ps'.by_tunnel_ip }

pub set_tunnel_ip_new :
    (ps : PeerStore) (id p : ℕ) (ip : Addr)
    → lookup id ps.by_id ≡ some (some p)
    → lookup ip ps.by_tunnel_ip ≡ none
    → set_tunnel_ip ps id ip ≡ (tunnelled ps p ip, ok tt)
unfolding set_tunnel_ip set_found_tunnel_ip
set_tunnel_ip_new ps id p ip h k = rw (h, set_tunnel_ip) (rw (k, set_found_tunnel_ip) refl)

-- An address that is taken is refused, and the store stays as it was.
pub set_tunnel_ip_taken :
    (ps : PeerStore) (id p : ℕ) (ip : Addr) (x : Ptr)
    → lookup id ps.by_id ≡ some (some p)
    → lookup ip ps.by_tunnel_ip ≡ some x
    → set_tunnel_ip ps id ip ≡ (ps, err (fault tunnel_ip_exists))
unfolding set_tunnel_ip set_found_tunnel_ip
set_tunnel_ip_taken ps id p ip x h k = rw (h, set_tunnel_ip) (rw (k, set_found_tunnel_ip) refl)

module _ (ps : PeerStore) (id p : ℕ) (ip : Addr) (s : IsStore ps)
    (here : lookup id ps.by_id ≡ some (some p)) (none_yet : (deref ps.heap p).tunnel_ip ≡ invalid)
    (real : ip ≢ invalid) (free : lookup ip ps.by_tunnel_ip ≡ none) where
  ids_kept : (q : ℕ) → (deref (tunnelled ps p ip).heap q).id ≡ (deref ps.heap q).id
  ids_kept q =
      deref-update (λ x. x.id) (λ peer. Peer.set_tunnel_ip peer ip)
        (unfold Peer.set_tunnel_ip in λ x. refl) ps.heap p q

  randoms_kept :
      (q : ℕ) → (deref (tunnelled ps p ip).heap q).client_random ≡ (deref ps.heap q).client_random
  randoms_kept q =
      deref-update (λ x. x.client_random) (λ peer. Peer.set_tunnel_ip peer ip)
        (unfold Peer.set_tunnel_ip in λ x. refl) ps.heap p q

  others_kept :
      (q : ℕ) → p ≢ q → (deref (tunnelled ps p ip).heap q).tunnel_ip ≡ (deref ps.heap q).tunnel_ip
  others_kept q ne = ap (λ (x : Peer). x.tunnel_ip) (deref-set_ne ps.heap p q _ ne)

  tunnel_set : (deref (tunnelled ps p ip).heap p).tunnel_ip ≡ ip
  unfolding Peer.set_tunnel_ip
  tunnel_set =
      ap (λ (x : Peer). x.tunnel_ip)
        (deref-set_self ps.heap p (Peer.set_tunnel_ip (deref ps.heap p) ip)
          (peer_at ps id p s here).allocated)

  by_tunnel_kept :
      (j q : ℕ)
      → IsPeerAt ps j q
      → ((deref (tunnelled ps p ip).heap q).tunnel_ip ≡ invalid)
        ⊎ (lookup (deref (tunnelled ps p ip).heap q).tunnel_ip (tunnelled ps p ip).by_tunnel_ip
            ≡ some (some q))
  by_tunnel_kept j q at = elim (ℕ_discrete p q) [
    | yes e ↦ inr (
        subst
          (λ (r : ℕ).
            lookup (deref (tunnelled ps p ip).heap r).tunnel_ip (tunnelled ps p ip).by_tunnel_ip
            ≡ some (some r))
          e
          (ap (λ (a : Addr). lookup a (tunnelled ps p ip).by_tunnel_ip) tunnel_set
            ∙ lookup-insert_self ip (some p) ps.by_tunnel_ip))
    | no ne ↦ elim at.by_tunnel [
      | inl unset ↦ inl (others_kept q ne ∙ unset)
      | inr l ↦
          let other : ip ≢ (deref ps.heap q).tunnel_ip =
            λ e. some-ne-none l (ap (λ (a : Addr). lookup a ps.by_tunnel_ip) (sym e) ∙ free) in
          inr (
            ap (λ (a : Addr). lookup a (tunnelled ps p ip).by_tunnel_ip) (others_kept q ne)
            ∙ lookup-insert_ne ip _ (some p) ps.by_tunnel_ip other
            ∙ l)
    ]
  ]

  pub tunnelled-IsStore : IsStore (tunnelled ps p ip)
  tunnelled-IsStore = record {
    ids = λ j x h.
        let (q, e, at) = s.ids j x h in
        (
          q,
          e,
          record {
            allocated = omega (
              arith,
              length-set ps.heap p (Peer.set_tunnel_ip (deref ps.heap p) ip),
              at.allocated,
            );
            same_id = ids_kept q ∙ at.same_id;
            older = at.older;
            by_random = rw (randoms_kept q) at.by_random;
            by_tunnel = by_tunnel_kept j q at;
          },
        );
    randoms = λ r x h.
        let (q, e, k, l) = s.randoms r x h in (q, e, randoms_kept q ∙ k, rw (ids_kept q) l);
    tunnels = λ a x h. elim (lookup-insert_cases ip a (some p) x ps.by_tunnel_ip h) [
      | inl (same, ptr) ↦ (
        (λ e. real (same ∙ e)),
        (p, sym ptr, tunnel_set ∙ same, rw (ids_kept p, (peer_at ps id p s here).same_id) here),
      )
      | inr (_, before) ↦
          let (ra, (q, e, k, l)) = s.tunnels a x before in
          let ne : p ≢ q =
            λ e. ra (sym k ∙ ap (λ (r : ℕ). (deref ps.heap r).tunnel_ip) (sym e) ∙ none_yet) in
          (ra, (q, e, others_kept q ne ∙ k, rw (ids_kept q) l))
    ];
    next_pos = s.next_pos;
  }

  -- From then on the address leads to the peer.
  pub get_by_tunnel_ip-tunnelled : get_by_tunnel_ip (tunnelled ps p ip) ip ≡ some p
  unfolding get_by_tunnel_ip
  get_by_tunnel_ip-tunnelled =
      rw (lookup-insert_self ip (some p) ps.by_tunnel_ip, get_by_tunnel_ip) refl
