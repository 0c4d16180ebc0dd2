-- ===== src/Server/Handlers/Steps.antt =====
-- internal/server/handler.go: the actions that the handlers are made of, and the invariant of the server.
use elevpn.Prelude.{ℕ, sym, subst, none, some, nat_eq, bytes_eq, Result, ok, err}
use elevpn.Net.{addr_eq}
use elevpn.Server.Peer.{Peer}
use elevpn.Server.PeerStore.{Ptr, PeerStore}
use elevpn.Server.Action.{World, Action, ◌>>=◌, lift, on_store, read_peer, call}
use elevpn.Server.Action.Kept.{Post, Leaves, Keeps, after, leaves_call}
use elevpn.Server.Handlers.Invariant.{IsServer, IsAdmitting}

pub lift-IsServer : {A : Type 0} (n : ℕ) (r : Result A) → Keeps (IsServer n) (lift r) (IsServer n)
lift-IsServer n (ok a) w s = s
lift-IsServer n (err e) w s = s

-- Reads alone.
pub read-IsServer :
    {A : Type 0} (n : ℕ) (ptr : Ptr) (field : Peer → A)
    → Keeps (IsServer n) (read_peer ptr field) (IsServer n)
read-IsServer n none field w s = s
read-IsServer n (some p) field w s = s

pub find-IsServer :
    {A : Type 0} (n : ℕ) (find : PeerStore → Result A)
    → Keeps (IsServer n) (on_store (λ ps. (ps, find ps))) (IsServer n)
find-IsServer {A = A} n find w s = go (find w.peers)
  where
    go : (r : Result A) → Post (IsServer n) (λ _. IsServer n) (record w { peers = w.peers }, r)
    go (ok a) = s
    go (err e) = s

pub call-IsServer :
    (n : ℕ) (c : _) (answer : Result ℕ) → Keeps (IsServer n) (call c answer) (IsServer n)
call-IsServer n c answer =
    leaves_call c answer (λ w s. s)
      (λ w calls s. record { store = s.store; distinct = s.distinct; room = s.room })

-- One action after another, where both keep the invariant.
pub and_then :
    {A B : Type 0} (n : ℕ) (m : Action A) (f : A → Action B)
    → Keeps (IsServer n) m (IsServer n)
    → ((a : A) → Keeps (IsServer n) (f a) (IsServer n))
    → Keeps (IsServer n) (m >>= f) (IsServer n)
and_then n m f k l = after (λ _. IsServer n) (λ _. IsServer n) (IsServer n) m f k l

-- The id that is read is the one that the peer is found by.
pub read_id-IsAdmitting :
    (n p id : ℕ)
    → Leaves
        (IsAdmitting n p id)
        (read_peer (some p) (λ x. x.id))
        (λ a. IsAdmitting n p a)
        (IsServer n)
read_id-IsAdmitting n p id w s = subst (λ (i : ℕ). IsAdmitting n p i w) (sym s.same_id) s

pub pass-IsAdmitting :
    {A : Type 0} (n p id : ℕ) (r : Result A)
    → Leaves (IsAdmitting n p id) (lift r) (λ _. IsAdmitting n p id) (IsServer n)
pass-IsAdmitting n p id (ok a) w s = s
pass-IsAdmitting n p id (err e) w s = s.server

pub known :
    {A : Type 0} (n : ℕ) (P : World → Type 0) (m : Action A) (Q : Type 0)
    → (Q → Keeps P m (IsServer n))
    → Keeps (λ w. P w × Q) m (IsServer n)
known n P m Q k w (p, q) = k q w p
