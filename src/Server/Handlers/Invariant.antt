-- ===== src/Server/Handlers/Invariant.antt =====
-- internal/server/handler.go: the invariant of the server, and the steps that the handlers are made of.
use elevpn.Prelude.{
  ℕ, suc, ◌+◌, ◌^◌, ◌<◌, ◌≡◌, ◌≢◌, inl, inr, refl, ◌∙◌, not, some, arith, nat_eq, bytes_eq, Result,
  ok, Option-cases, fault, invalid_ip_range, reject, >>=-eq-ok, ok-injective,
}
use elevpn.Prelude.Maps.{lookup}
use elevpn.Prelude.Keys.{KeysDistinct}
use elevpn.Bytes.{Bytes}
use elevpn.Net.{addr_eq, CidrText, parse_cidr, to4}
use elevpn.Protocol.Payload.{Addr, invalid, v4}
use elevpn.Server.Peer.{Peer, next_send_sequence, accept_client_sequence, set_cipher, touch}
use elevpn.Server.PeerStore.{Ptr, deref, update, set_tunnel_ip}
use elevpn.Server.PeerStore.Invariant.{IsStore, update-IsStore, deref-update}
use elevpn.Server.PeerStore.Tunnel.{set_tunnel_ip_new, set_tunnel_ip_taken, tunnelled-IsStore}
use elevpn.Server.Allocation.{need_ip4, valid_ip_range, allocate_tunnel_ip}
use elevpn.Server.Action.{World, lift, on_store, on_peer}
use elevpn.Server.Action.Kept.{Leaves, Keeps, leaves_lift, leaves_on_peer}

-- The maps agree, each id is there once, and `n` more ids can be given out.
pub record IsServer (n : ℕ) (w : World) : Type 0 where
  pub store : IsStore w.peers
  pub distinct : KeysDistinct w.peers.by_id
  pub room : w.peers.next_id + n < 2 ^ 64

-- Besides, the peer at `p` is found by its id `id`, and has no tunnel IP yet.
pub record IsAdmitting (n p id : ℕ) (w : World) : Type 0 where
  pub server : IsServer n w
  pub same_id : (deref w.peers.heap p).id ≡ id
  pub here : lookup id w.peers.by_id ≡ some (some p)
  pub none_yet : (deref w.peers.heap p).tunnel_ip ≡ invalid

pub less_room : (n : ℕ) (w : World) → IsServer (suc n) w → IsServer n w
less_room n w s = record { store = s.store; distinct = s.distinct; room = omega (arith, s.room) }

-- The methods of a peer, but `setTunnelIP`, keep these three fields.
pub record KeepsKeys (method : Peer → Peer) : Type 0 where
  pub id_kept : (x : Peer) → (method x).id ≡ x.id
  pub random_kept : (x : Peer) → (method x).client_random ≡ x.client_random
  pub tunnel_kept : (x : Peer) → (method x).tunnel_ip ≡ x.tunnel_ip

pub update-IsServer :
    (n : ℕ) (method : Peer → Peer)
    → KeepsKeys method
    → (w : World) (i : ℕ) → IsServer n w
    → IsServer n (record w { peers = update w.peers i method })
update-IsServer n method k w i s = record {
  store = update-IsStore method k.id_kept k.random_kept k.tunnel_kept w.peers i s.store;
  distinct = s.distinct;
  room = s.room;
}

update-IsAdmitting :
    (n p id : ℕ) (method : Peer → Peer)
    → KeepsKeys method
    → (w : World) (i : ℕ) → IsAdmitting n p id w
    → IsAdmitting n p id (record w { peers = update w.peers i method })
update-IsAdmitting n p id method k w i s = record {
  server = update-IsServer n method k w i s.server;
  same_id = deref-update (λ x. x.id) method k.id_kept w.peers.heap i p ∙ s.same_id;
  here = s.here;
  none_yet = deref-update (λ x. x.tunnel_ip) method k.tunnel_kept w.peers.heap i p ∙ s.none_yet;
}

pub accept-KeepsKeys : (seq : ℕ) → KeepsKeys (λ x. (accept_client_sequence x seq).0)
unfolding accept_client_sequence
accept-KeepsKeys seq = record {
  id_kept = λ x. refl;
  random_kept = λ x. refl;
  tunnel_kept = λ x. refl;
}

pub next-KeepsKeys : KeepsKeys (λ x. (next_send_sequence x).0)
unfolding next_send_sequence
next-KeepsKeys = record { id_kept = λ x. refl; random_kept = λ x. refl; tunnel_kept = λ x. refl }

pub touch-KeepsKeys : (now : ℕ) → KeepsKeys (λ x. touch x now)
unfolding touch
touch-KeepsKeys now = record {
  id_kept = λ x. refl;
  random_kept = λ x. refl;
  tunnel_kept = λ x. refl;
}

pub set_cipher-KeepsKeys : (c : _) → KeepsKeys (λ x. set_cipher x c)
unfolding set_cipher
set_cipher-KeepsKeys c = record {
  id_kept = λ x. refl;
  random_kept = λ x. refl;
  tunnel_kept = λ x. refl;
}

-- An action on a peer that keeps the keys.
pub on_peer-IsServer :
    {A : Type 0} (n : ℕ) (ptr : Ptr) (method : Peer → Peer × Result A)
    → KeepsKeys (λ x. (method x).0)
    → Keeps (IsServer n) (on_peer ptr method) (IsServer n)
on_peer-IsServer n ptr method k =
    leaves_on_peer ptr method (λ w s. s) (update-IsServer n (λ x. (method x).0) k)

pub on_peer-IsAdmitting :
    {A : Type 0} (n p id : ℕ) (ptr : Ptr) (method : Peer → Peer × Result A)
    → KeepsKeys (λ x. (method x).0)
    → Leaves (IsAdmitting n p id) (on_peer ptr method) (λ _. IsAdmitting n p id) (IsServer n)
on_peer-IsAdmitting n p id ptr method k =
    leaves_on_peer ptr method (λ w s. s.server) (update-IsAdmitting n p id (λ x. (method x).0) k)

pub lift-IsAdmitting :
    {A : Type 0} (n p id : ℕ) (r : Result A)
    → Leaves (IsAdmitting n p id) (lift r) (λ a w. IsAdmitting n p id w × (r ≡ ok a)) (IsServer n)
lift-IsAdmitting n p id r = leaves_lift r (λ w s. s.server)

-- An allocated address is a real one.
pub allocated_real :
    (c : CidrText) (id : ℕ) (ip : Addr) → allocate_tunnel_ip c id ≡ ok ip → ip ≢ invalid
unfolding allocate_tunnel_ip
allocated_real c id ip h e =
    let (n, _, h₁) = >>=-eq-ok (parse_cidr c) _ h in
    let (ip4, _, h₂) = >>=-eq-ok (need_ip4 (to4 n.ip)) _ h₁ in
    let (_, _, h₃) =
      >>=-eq-ok (reject (not (valid_ip_range id n.ones)) (fault invalid_ip_range)) _ h₂ in
    v4-ne-invalid (ok-injective h₃ ∙ e)
  where
    v4-ne-invalid : {b : Bytes} → v4 b ≢ invalid
    v4-ne-invalid k = cc

pub set_tunnel_ip-IsServer :
    (n p id : ℕ) (ip : Addr)
    → ip ≢ invalid
    → Keeps (IsAdmitting n p id) (on_store (λ ps. set_tunnel_ip ps id ip)) (IsServer n)
set_tunnel_ip-IsServer n p id ip real w s = elim (Option-cases (lookup ip w.peers.by_tunnel_ip)) [
  | inl free ↦ rw (set_tunnel_ip_new w.peers id p ip s.here free) (record {
    store = tunnelled-IsStore w.peers id p ip s.server.store s.here s.none_yet real free;
    distinct = s.server.distinct;
    room = s.server.room;
  })
  | inr (x, taken) ↦ rw (set_tunnel_ip_taken w.peers id p ip x s.here taken) s.server
]
