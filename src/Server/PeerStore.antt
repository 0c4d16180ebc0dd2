-- ===== src/Server/PeerStore.antt =====
-- internal/server/peer_store.go: the peers, found by id, by tunnel IP and by client random.
-- A pointer to a peer is an index of `heap`, where the peers are in the order of their creation and are
-- never removed: whoever still holds the pointer of a deleted peer goes on using it. nil is `none`.
-- Each operation holds the store's lock for its whole body, so it is one step.
pub mod Invariant
pub mod Registration
pub mod Tunnel
pub mod Ciphers
pub mod Expiry
use elevpn.Prelude.{
  ℕ, ◌+◌, ◌%◌, ◌^◌, Bool, true, false, if◌then◌else◌, Option, none, some, List, [], ◌∷◌, ◌++◌,
  length, get_or, set, bytes_eq, nat_eq, Error, sentinel, fault, drop_packet, addr_nil,
  peer_not_found, peer_nil, tunnel_ip_exists, Result, ok, err,
}
use elevpn.Prelude.Maps.{Map, Entry, lookup, insert, delete}
use elevpn.Bytes.{Bytes}
use elevpn.Net.{UdpAddr, addr_eq}
use elevpn.Protocol.Payload.{Addr}
use elevpn.Server.Peer.{Peer, new_peer, expired, tunnel_ip_snapshot}
use elevpn.Server.Peer

abbrev pub Ptr : Type 0
Ptr = Option ℕ

pub record PeerStore : Type 0 where
  pub heap : List Peer
  pub by_id : Map ℕ Ptr
  pub by_tunnel_ip : Map Addr Ptr
  pub by_client_random : Map Bytes Ptr
  pub next_id : ℕ

abbrev pub new_peer_store : PeerStore
new_peer_store = record {
  heap = [];
  by_id = [];
  by_tunnel_ip = [];
  by_client_random = [];
  next_id = 1;
}

-- The peer at a pointer that is not nil.
abbrev pub deref : List Peer → ℕ → Peer
deref heap p = get_or heap p (new_peer 0 none [] 0)

-- A method of the peer at a pointer, which changes that peer in place.
abbrev pub update : PeerStore → ℕ → (Peer → Peer) → PeerStore
update ps p method = record ps { heap = set ps.heap p (method (deref ps.heap p)) }

-- The pointer to the peer, and whether it is new.
unfoldable pub register : PeerStore → Option UdpAddr → Bytes → ℕ → PeerStore × Result (Ptr × Bool)
register ps none client_random now = (ps, err (fault addr_nil))
register ps (some addr) client_random now = elim (lookup client_random ps.by_client_random) [
  | some p ↦ (ps, ok (p, false))
  | none ↦
      let id = ps.next_id in
      let p = some (length ps.heap) in
      (
        record {
          heap = ps.heap ++ (new_peer id (some addr) client_random now ∷ []);
          by_id = insert id p ps.by_id;
          by_tunnel_ip = ps.by_tunnel_ip;
          by_client_random = insert client_random p ps.by_client_random;
          next_id = (ps.next_id + 1) % 2 ^ 64;
        },
        ok (p, true),
      )
]

abbrev pub found : Option Ptr → Result ℕ
found (some (some p)) = ok p
found _ = err (sentinel drop_packet)

unfoldable pub get_by_id : PeerStore → ℕ → Result ℕ
get_by_id ps id = found (lookup id ps.by_id)

-- `none` for `nil, false`.
unfoldable pub get_by_tunnel_ip : PeerStore → Addr → Option ℕ
get_by_tunnel_ip ps ip = elim (lookup ip ps.by_tunnel_ip) [ none ↦ none | some p ↦ p ]

-- `setTunnelIP` once the peer is found.
set_found_tunnel_ip : PeerStore → ℕ → Addr → PeerStore × Result (Unit {0})
set_found_tunnel_ip ps p tunnel_ip = elim (lookup tunnel_ip ps.by_tunnel_ip) [
  | some _ ↦ (ps, err (fault tunnel_ip_exists))
  | none ↦
      let ps' = update ps p (λ peer. Peer.set_tunnel_ip peer tunnel_ip) in
      (record ps' { by_tunnel_ip = insert tunnel_ip (some p) ps'.by_tunnel_ip }, ok tt)
]

unfoldable pub set_tunnel_ip : PeerStore → ℕ → Addr → PeerStore × Result (Unit {0})
unfolding set_found_tunnel_ip
set_tunnel_ip ps id tunnel_ip = elim (lookup id ps.by_id) [
  | none ↦ (ps, err (fault peer_not_found))
  | some none ↦ (ps, err (fault peer_nil))
  | some (some p) ↦ set_found_tunnel_ip ps p tunnel_ip
]

-- The deletes for one expired peer.
unfoldable pub forget : PeerStore → ℕ → ℕ → PeerStore
forget ps id p = record ps {
  by_id = delete id ps.by_id;
  by_tunnel_ip = delete (tunnel_ip_snapshot (deref ps.heap p)) ps.by_tunnel_ip;
  by_client_random = delete (deref ps.heap p).client_random ps.by_client_random;
}

-- One round of the loop over `byID`.
unfoldable pub delete_one : ℕ → ℕ → PeerStore × ℕ → Entry ℕ Ptr → PeerStore × ℕ
delete_one now timeout (ps, count) x = elim x.value [
  | none ↦ (record ps { by_id = delete x.key ps.by_id }, count + 1)
  | some p ↦
      if expired (deref ps.heap p) now timeout then (forget ps x.key p, count + 1) else (ps, count)
]

unfoldable pub delete_loop : ℕ → ℕ → PeerStore × ℕ → List (Entry ℕ Ptr) → PeerStore × ℕ
delete_loop now timeout acc [] = acc
delete_loop now timeout acc (x ∷ xs) = delete_loop now timeout (delete_one now timeout acc x) xs

-- The loop ranges over the entries that the map has when it starts, and deletes only the entry at hand.
unfoldable pub delete_expired : PeerStore → ℕ → ℕ → PeerStore × ℕ
delete_expired ps now timeout = delete_loop now timeout (ps, 0) ps.by_id
