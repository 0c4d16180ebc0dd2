-- ===== src/Server/PeerStore/Registration.antt =====
-- internal/server/peer_store.go: `register` and the agreement of the maps.
use elevpn.Prelude.{
  ℕ, ◌+◌, ◌%◌, ◌^◌, ◌<◌, ◌≡◌, ◌≢◌, inl, inr, refl, sym, ap, subst, ◌∙◌, Option, none, some, [], ◌∷◌,
  ◌++◌, length, length-append, arith, nat_eq, bytes_eq, true, false, ok, Option-cases,
}
use elevpn.Prelude.Maps.{lookup, insert, lookup-insert_self, lookup-insert_ne, lookup-insert_cases}
use elevpn.Bytes.{Bytes}
use elevpn.Net.{UdpAddr, addr_eq}
use elevpn.Server.Peer.{Peer, new_peer}
use elevpn.Server.PeerStore.{Ptr, PeerStore, deref, register}
use elevpn.Server.PeerStore.Invariant.{
  some-ne-none, IsPeerAt, IsStore, peer_at, deref-append_old, deref-append_new,
}

-- The store after a registration under a client random that is new.
abbrev pub registered : PeerStore → UdpAddr → Bytes → ℕ → PeerStore
registered ps addr random now = record {
  heap = ps.heap ++ (new_peer ps.next_id (some addr) random now ∷ []);
  by_id = insert ps.next_id (some (length ps.heap)) ps.by_id;
  by_tunnel_ip = ps.by_tunnel_ip;
  by_client_random = insert random (some (length ps.heap)) ps.by_client_random;
  next_id = (ps.next_id + 1) % 2 ^ 64;
}

pub register_new :
    (ps : PeerStore) (addr : UdpAddr) (random : Bytes) (now : ℕ)
    → lookup random ps.by_client_random ≡ none
    → register ps (some addr) random now
      ≡ (registered ps addr random now, ok (some (length ps.heap), true))
unfolding register
register_new ps addr random now h = rw (h, register) refl

pub register_again :
    (ps : PeerStore) (addr : UdpAddr) (random : Bytes) (now : ℕ) (p : Ptr)
    → lookup random ps.by_client_random ≡ some p
    → register ps (some addr) random now ≡ (ps, ok (p, false))
unfolding register
register_again ps addr random now p h = rw (h, register) refl

module _ (ps : PeerStore) (addr : UdpAddr) (random : Bytes) (now : ℕ) (s : IsStore ps)
    (fresh : lookup random ps.by_client_random ≡ none) (room : ps.next_id + 1 < 2 ^ 64) where
  next_id_lem : (ps.next_id + 1) % 2 ^ 64 ≡ ps.next_id + 1
  next_id_lem = omega arith

  old_peer :
      (p : ℕ) → p < length ps.heap → deref (registered ps addr random now).heap p ≡ deref ps.heap p
  old_peer p lt = deref-append_old ps.heap (new_peer ps.next_id (some addr) random now) p lt

  new_peer_lem :
      deref (registered ps addr random now).heap (length ps.heap)
      ≡ new_peer ps.next_id (some addr) random now
  new_peer_lem = deref-append_new ps.heap (new_peer ps.next_id (some addr) random now)

  pub registered-IsPeerAt : IsPeerAt (registered ps addr random now) ps.next_id (length ps.heap)
  registered-IsPeerAt = record {
    allocated =
        omega (arith, length-append ps.heap (new_peer ps.next_id (some addr) random now ∷ []));
    same_id = ap (λ (q : Peer). q.id) new_peer_lem;
    older = omega (arith, next_id_lem);
    by_random =
        rw new_peer_lem (lookup-insert_self random (some (length ps.heap)) ps.by_client_random);
    by_tunnel = inl (ap (λ (q : Peer). q.tunnel_ip) new_peer_lem);
  }

  kept-IsPeerAt : (id p : ℕ) → IsPeerAt ps id p → IsPeerAt (registered ps addr random now) id p
  kept-IsPeerAt id p at =
      let same = old_peer p at.allocated in
      record {
        allocated = omega (
          arith,
          length-append ps.heap (new_peer ps.next_id (some addr) random now ∷ []),
          at.allocated,
        );
        same_id = ap (λ (q : Peer). q.id) same ∙ at.same_id;
        older = omega (arith, next_id_lem, at.older);
        by_random = rw same (
            lookup-insert_ne random _ (some (length ps.heap)) ps.by_client_random (λ e.
              some-ne-none at.by_random
                (ap (λ (r : Bytes). lookup r ps.by_client_random) (sym e) ∙ fresh))
            ∙ at.by_random);
        by_tunnel = rw same at.by_tunnel;
      }

  -- A peer that was found by its id is still found, since its id is not the next one.
  kept_id :
      (p : ℕ)
      → lookup (deref ps.heap p).id ps.by_id ≡ some (some p)
      → p < length ps.heap
        × (lookup
              (deref (registered ps addr random now).heap p).id
              (registered ps addr random now).by_id
            ≡ some (some p))
  kept_id p l =
      let at = peer_at ps (deref ps.heap p).id p s l in
      let same = ap (λ (q : Peer). q.id) (old_peer p at.allocated) in
      let ne : ps.next_id ≢ (deref ps.heap p).id = λ e. omega (arith, at.older) in
      (
        at.allocated,
        rw same (lookup-insert_ne ps.next_id _ (some (length ps.heap)) ps.by_id ne ∙ l),
      )

  pub registered-IsStore : IsStore (registered ps addr random now)
  registered-IsStore = record {
    ids = λ id x h. elim (lookup-insert_cases ps.next_id id (some (length ps.heap)) x ps.by_id h) [
      | inl (same, here) ↦ (
        length ps.heap,
        sym here,
        subst (λ (i : ℕ). IsPeerAt (registered ps addr random now) i (length ps.heap)) same
            registered-IsPeerAt,
      )
      | inr (_, before) ↦ let (p, e, at) = s.ids id x before in (p, e, kept-IsPeerAt id p at)
    ];
    randoms = λ r x h.
        elim (lookup-insert_cases random r (some (length ps.heap)) x ps.by_client_random h) [
          | inl (same, here) ↦ (
            length ps.heap,
            sym here,
            ap (λ (q : Peer). q.client_random) new_peer_lem ∙ same,
            rw new_peer_lem (lookup-insert_self ps.next_id (some (length ps.heap)) ps.by_id),
          )
          | inr (_, before) ↦
              let (p, e, k, l) = s.randoms r x before in
              let (lt, l') = kept_id p l in
              (p, e, ap (λ (q : Peer). q.client_random) (old_peer p lt) ∙ k, l')
        ];
    tunnels = λ ip x h.
        let (real, (p, e, k, l)) = s.tunnels ip x h in
        let (lt, l') = kept_id p l in
        (real, (p, e, ap (λ (q : Peer). q.tunnel_ip) (old_peer p lt) ∙ k, l'));
    next_pos = omega (arith, next_id_lem);
  }

-- `register` keeps the maps in agreement on every branch, as long as the ids have not run through all
-- of uint64.
pub register-IsStore :
    (ps : PeerStore) (addr : Option UdpAddr) (random : Bytes) (now : ℕ)
    → IsStore ps
    → ps.next_id + 1 < 2 ^ 64
    → IsStore (register ps addr random now).0
register-IsStore ps none random now s room = unfold register in s
register-IsStore ps (some addr) random now s room =
    elim (Option-cases (lookup random ps.by_client_random)) [
      | inl fresh ↦
          rw (register_new ps addr random now fresh)
            (registered-IsStore ps addr random now s fresh room)
      | inr (p, known) ↦ rw (register_again ps addr random now p known) s
    ]
