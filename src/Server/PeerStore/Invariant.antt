-- ===== src/Server/PeerStore/Invariant.antt =====
-- internal/server/peer_store.go: what it means that the three maps of a peer store agree.
use elevpn.Prelude.{
  ℕ, zero, suc, ◌<◌, ◌≡◌, ◌≢◌, ◌⊎◌, refl, sym, ap, subst, ◌∙◌, Option, none, some, List, [], ◌∷◌,
  ◌++◌, length, set, length-set, arith, nat_eq, bytes_eq,
}
use elevpn.Prelude.Maps.{lookup}
use elevpn.Bytes.{Bytes}
use elevpn.Net.{addr_eq}
use elevpn.Protocol.Payload.{Addr, invalid}
use elevpn.Server.Peer.{Peer}
use elevpn.Server.PeerStore.{Ptr, PeerStore, new_peer_store, deref, update}

-- The peer at `p` is registered under `id`, under its client random, and, once it has a tunnel IP,
-- under that.
pub record IsPeerAt (ps : PeerStore) (id p : ℕ) : Type 0 where
  pub allocated : p < length ps.heap
  pub same_id : (deref ps.heap p).id ≡ id
  pub older : id < ps.next_id
  pub by_random : lookup (deref ps.heap p).client_random ps.by_client_random ≡ some (some p)
  pub by_tunnel :
      ((deref ps.heap p).tunnel_ip ≡ invalid)
      ⊎ (lookup (deref ps.heap p).tunnel_ip ps.by_tunnel_ip ≡ some (some p))

-- An entry of `byClientRandom` or `byTunnelIP` holds a registered peer with that key.
abbrev pub Leads : {K : Type 0} → PeerStore → (Peer → K) → K → Ptr → Type 0
Leads ps key k x =
    (p : ℕ) × (x ≡ some p)
    × (key (deref ps.heap p) ≡ k)
    × (lookup (deref ps.heap p).id ps.by_id ≡ some (some p))

pub record IsStore (ps : PeerStore) : Type 0 where
  pub ids :
      (id : ℕ) (x : Ptr) → lookup id ps.by_id ≡ some x → (p : ℕ) × (x ≡ some p) × IsPeerAt ps id p
  pub randoms :
      (r : Bytes) (x : Ptr)
      → lookup r ps.by_client_random ≡ some x
      → Leads ps (λ q. q.client_random) r x
  pub tunnels :
      (ip : Addr) (x : Ptr)
      → lookup ip ps.by_tunnel_ip ≡ some x
      → (ip ≢ invalid) × Leads ps (λ q. q.tunnel_ip) ip x
  pub next_pos : 0 < ps.next_id

pub none-ne-some {ℓ} : {A : Type ℓ} {a : A} → none ≢ some a
none-ne-some h = cc

pub some-ne-none {ℓ} : {A : Type ℓ} {o : Option A} {a : A} → o ≡ some a → o ≢ none
some-ne-none e h = cc

pub new_peer_store-IsStore : IsStore new_peer_store
unfolding lookup
new_peer_store-IsStore = record {
  ids = λ id x h. absurd (none-ne-some h);
  randoms = λ r x h. absurd (none-ne-some h);
  tunnels = λ ip x h. absurd (none-ne-some h);
  next_pos = omega arith;
}

-- Writes to one place of the heap.
pub deref-set_self :
    (heap : List Peer) (p : ℕ) (v : Peer) → p < length heap → deref (set heap p v) p ≡ v
deref-set_self [] p v h = elim h [ ]
deref-set_self (x ∷ xs) zero v h = refl
deref-set_self (x ∷ xs) (suc p) v h = deref-set_self xs p v (omega arith)

pub deref-set_ne :
    (heap : List Peer) (p q : ℕ) (v : Peer) → p ≢ q → deref (set heap p v) q ≡ deref heap q
deref-set_ne [] p q v h = refl
deref-set_ne (x ∷ xs) zero zero v h = absurd (h refl)
deref-set_ne (x ∷ xs) zero (suc q) v h = refl
deref-set_ne (x ∷ xs) (suc p) zero v h = refl
deref-set_ne (x ∷ xs) (suc p) (suc q) v h = deref-set_ne xs p q v (λ e. h (ap suc e))

-- A field that a method leaves alone is the same in every peer after the method.
pub deref-update {κ} :
    {B : Type κ} (field : Peer → B) (method : Peer → Peer)
    → ((x : Peer) → field (method x) ≡ field x)
    → (heap : List Peer) (p q : ℕ)
    → field (deref (set heap p (method (deref heap p))) q) ≡ field (deref heap q)
deref-update field method keep [] p q = refl
deref-update field method keep (x ∷ xs) zero zero = keep x
deref-update field method keep (x ∷ xs) zero (suc q) = refl
deref-update field method keep (x ∷ xs) (suc p) zero = refl
deref-update field method keep (x ∷ xs) (suc p) (suc q) = deref-update field method keep xs p q

pub deref-append_old :
    (heap : List Peer) (v : Peer) (p : ℕ)
    → p < length heap
    → deref (heap ++ (v ∷ [])) p ≡ deref heap p
deref-append_old [] v p h = elim h [ ]
deref-append_old (x ∷ xs) v zero h = refl
deref-append_old (x ∷ xs) v (suc p) h = deref-append_old xs v p (omega arith)

pub deref-append_new : (heap : List Peer) (v : Peer) → deref (heap ++ (v ∷ [])) (length heap) ≡ v
deref-append_new [] v = refl
deref-append_new (x ∷ xs) v = deref-append_new xs v

-- A method that keeps a peer's id, client random and tunnel IP keeps the maps in agreement.
module _ (method : Peer → Peer) (id_kept : (x : Peer) → (method x).id ≡ x.id)
    (random_kept : (x : Peer) → (method x).client_random ≡ x.client_random)
    (tunnel_kept : (x : Peer) → (method x).tunnel_ip ≡ x.tunnel_ip) where
  pub update-IsStore : (ps : PeerStore) (p : ℕ) → IsStore ps → IsStore (update ps p method)
  update-IsStore ps p s = record {
    ids = λ id x h.
        let (q, e, at) = s.ids id x h in
        (
          q,
          e,
          record {
            allocated =
                omega (arith, length-set ps.heap p (method (deref ps.heap p)), at.allocated);
            same_id = same_ids q ∙ at.same_id;
            older = at.older;
            by_random = rw (randoms q) at.by_random;
            by_tunnel = rw (tunnels q) at.by_tunnel;
          },
        );
    randoms =
        λ r x h. let (q, e, k, l) = s.randoms r x h in (q, e, randoms q ∙ k, rw (same_ids q) l);
    tunnels = λ ip x h.
        let (real, (q, e, k, l)) = s.tunnels ip x h in
        (real, (q, e, tunnels q ∙ k, rw (same_ids q) l));
    next_pos = s.next_pos;
  }
    where
      same_ids : (q : ℕ) → (deref (update ps p method).heap q).id ≡ (deref ps.heap q).id
      same_ids q = deref-update (λ x. x.id) method id_kept ps.heap p q

      randoms :
          (q : ℕ)
          → (deref (update ps p method).heap q).client_random ≡ (deref ps.heap q).client_random
      randoms q = deref-update (λ x. x.client_random) method random_kept ps.heap p q

      tunnels :
          (q : ℕ) → (deref (update ps p method).heap q).tunnel_ip ≡ (deref ps.heap q).tunnel_ip
      tunnels q = deref-update (λ x. x.tunnel_ip) method tunnel_kept ps.heap p q

some_injective {ℓ} : {A : Type ℓ} {a b : A} → some a ≡ some b → a ≡ b
some_injective h = cc

-- The peer that an id leads to.
pub peer_at :
    (ps : PeerStore) (id p : ℕ) → IsStore ps → lookup id ps.by_id ≡ some (some p) → IsPeerAt ps id p
peer_at ps id p s l =
    let (q, e, at) = s.ids id (some p) l in
    subst (λ (r : ℕ). IsPeerAt ps id r) (sym (some_injective e)) at

-- Two keys that lead to one entry, or one key that leads to two pointers, are the same.
pub same_pointer {ℓ} :
    {K : Type ℓ} (find : K → Option Ptr) (j k : K) (p q : ℕ)
    → find j ≡ some (some p)
    → find k ≡ some (some q)
    → j ≡ k
    → p ≡ q
same_pointer find j k p q a b e = some_injective (some_injective (sym a ∙ ap find e ∙ b))
