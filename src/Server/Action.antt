-- ===== src/Server/Action.antt =====
-- How the server's handlers run: what they share is the peer store, and what they do outside is a list
-- of calls, in their order. A handler is a function of the state that gives the new state and a Go
-- result, so what it changed before an error stays changed.
pub mod Kept
use elevpn.Prelude.{
  ℕ, Bool, not, ◌==◌, Option, none, some, List, [], ◌∷◌, ◌++◌, length, Error, fault, nil_pointer,
  Result, ok, err,
}
use elevpn.Bytes.{Bytes}
use elevpn.Net.{UdpAddr}
use elevpn.Server.Peer.{Peer}
use elevpn.Server.PeerStore.{Ptr, PeerStore, deref, update}

pub data Call : Type 0 where
  write_udp : Bytes → Option UdpAddr → Call
  write_tun : Bytes → Call

pub record World : Type 0 where
  pub peers : PeerStore
  pub calls : List Call

abbrev pub Action : Type 0 → Type 0
Action A = World → World × Result A

infixl 5 ◌>>=◌ ◌>>◌
unfoldable pub ◌>>=◌ : {A B : Type 0} → Action A → (A → Action B) → Action B
(m >>= f) w = let (w', r) = m w in elim r [ ok a ↦ f a w' | err e ↦ (w', err e) ]

abbrev pub ◌>>◌ : {B : Type 0} → Action (Unit {0}) → Action B → Action B
m >> k = m >>= λ _. k

abbrev pub lift : {A : Type 0} → Result A → Action A
lift r w = (w, r)

-- An operation of the store, which holds the store's lock.
abbrev pub on_store : {A : Type 0} → (PeerStore → PeerStore × Result A) → Action A
on_store operation w = let (peers, r) = operation w.peers in (record w { peers = peers }, r)

-- A method of a peer, which holds the peer's lock. A nil pointer is a panic.
abbrev pub on_peer : {A : Type 0} → Ptr → (Peer → Peer × Result A) → Action A
on_peer none method w = (w, err (fault nil_pointer))
on_peer (some p) method w =
    (record w { peers = update w.peers p (λ x. (method x).0) }, (method (deref w.peers.heap p)).1)

-- A method that cannot fail.
abbrev pub on_peer_total : {A : Type 0} → Ptr → (Peer → Peer × A) → Action A
on_peer_total ptr method = on_peer ptr (λ x. ((method x).0, ok (method x).1))

abbrev pub read_peer : {A : Type 0} → Ptr → (Peer → A) → Action A
read_peer none field w = (w, err (fault nil_pointer))
read_peer (some p) field w = (w, ok (field (deref w.peers.heap p)))

-- A call outside, with its answer.
abbrev pub call : Call → Result ℕ → Action ℕ
call c answer w = (record w { calls = w.calls ++ (c ∷ []) }, answer)

-- The result of an action as a value, for a caller that looks at the error.
unfoldable pub attempt : {A B : Type 0} → Action A → (Result A → Action B) → Action B
attempt m f w = let (w', r) = m w in f r w'
