-- ===== src/Server/Action/Kept.antt =====
-- What an action makes of a world with a property, stated of the result and of the state at an error,
-- and composed along binds.
use elevpn.Prelude.{ℕ, ◌≡◌, refl, sym, ap, subst, ◌⊎◌, inl, inr, none, some, Error, Result, ok, err}
use elevpn.Server.Peer.{Peer}
use elevpn.Server.PeerStore.{Ptr, deref, update}
use elevpn.Server.Action.{Call, World, Action, ◌>>=◌, lift, on_peer, read_peer, call, attempt}

-- `R a` of the world when the action gives `a`, `Q` at an error.
abbrev pub Post {κ} :
    {A : Type 0} → (World → Type κ) → (A → World → Type κ) → World × Result A → Type κ
Post Q R (w, ok a) = R a w
Post Q R (w, err e) = Q w

abbrev pub Leaves {κ} :
    {A : Type 0} → (World → Type κ) → Action A → (A → World → Type κ) → (World → Type κ) → Type κ
Leaves P m R Q = (w : World) → P w → Post Q R (m w)

-- A bind after an action whose outcome is known.
pub after_ok :
    {A B : Type 0} (m : Action A) (f : A → Action B) (w w' : World) (a : A)
    → m w ≡ (w', ok a)
    → (m >>= f) w ≡ f a w'
unfolding ◌>>=◌
after_ok {A = A} {B = B} m f w w' a e =
    ap (λ (r : World × Result A). elim r.1 [ ok b ↦ f b r.0 | err d ↦ (r.0, err d) ]) e

pub after_err :
    {A B : Type 0} (m : Action A) (f : A → Action B) (w w' : World) (d : Error)
    → m w ≡ (w', err d)
    → (m >>= f) w ≡ (w', err d)
unfolding ◌>>=◌
after_err {A = A} {B = B} m f w w' d e =
    ap (λ (r : World × Result A). elim r.1 [ ok b ↦ f b r.0 | err d' ↦ (r.0, err d') ]) e

-- Every bind goes on from what its first action gave, or stops at its error.
pub bind_cases :
    {A B : Type 0} (m : Action A) (f : A → Action B) (w : World)
    → ((a : A) × ((m w).1 ≡ ok a) × ((m >>= f) w ≡ f a (m w).0))
      ⊎ ((e : Error) × ((m w).1 ≡ err e) × ((m >>= f) w ≡ ((m w).0, err e)))
bind_cases {A = A} m f w = go (m w).1 refl
  where
    go :
        (r : Result A)
        → (m w).1 ≡ r
        → ((a : A) × ((m w).1 ≡ ok a) × ((m >>= f) w ≡ f a (m w).0))
          ⊎ ((e : Error) × ((m w).1 ≡ err e) × ((m >>= f) w ≡ ((m w).0, err e)))
    go (ok a) q = inl (a, q, after_ok m f w (m w).0 a (ap (λ (r : Result A). ((m w).0, r)) q))
    go (err e) q = inr (e, q, after_err m f w (m w).0 e (ap (λ (r : Result A). ((m w).0, r)) q))

-- To prove a property of what a bind gives, go through what its first action gives.
pub bind_elim {κ} :
    {A B : Type 0} (G : World × Result B → Type κ) (m : Action A) (f : A → Action B) (w : World)
    → ((a : A) → (m w).1 ≡ ok a → G (f a (m w).0))
    → ((e : Error) → (m w).1 ≡ err e → G ((m w).0, err e))
    → G ((m >>= f) w)
bind_elim G m f w yes' no' = elim (bind_cases m f w) [
  | inl (a, q, e) ↦ subst G (sym e) (yes' a q)
  | inr (d, q, e) ↦ subst G (sym e) (no' d q)
]

-- The world alone, at either result.
abbrev pub Keeps {κ} : {A : Type 0} → (World → Type κ) → Action A → (World → Type κ) → Type κ
Keeps P m Q = Leaves P m (λ _. Q) Q

pub Keeps-world {κ} :
    {A : Type 0} (P Q : World → Type κ) (m : Action A) → Keeps P m Q → (w : World) → P w → Q (m w).0
Keeps-world {A = A} P Q m k w p = both (m w) (k w p)
  where
    both : (r : World × Result A) → Post Q (λ _. Q) r → Q r.0
    both (w', ok a) q = q
    both (w', err e) q = q

pub after {κ} :
    {A B : Type 0} {P : World → Type κ} (R : A → World → Type κ) (S : B → World → Type κ)
    (Q : World → Type κ) (m : Action A) (f : A → Action B)
    → Leaves P m R Q
    → ((a : A) → Leaves (R a) (f a) S Q)
    → Leaves P (m >>= f) S Q
unfolding ◌>>=◌
after {A = A} {B = B} R S Q m f k l w p = go (m w) (k w p)
  where
    go :
        (r : World × Result A)
        → Post Q R r
        → Post Q S (elim r.1 [ ok a ↦ f a r.0 | err e ↦ (r.0, err e) ])
    go (w', ok a) q = l a w' q
    go (w', err e) q = q

pub after_attempt {κ} :
    {A B : Type 0} {P : World → Type κ} (R : World → Type κ) (S : B → World → Type κ)
    (Q : World → Type κ) (m : Action A) (f : Result A → Action B)
    → Keeps P m R
    → ((r : Result A) → Leaves R (f r) S Q)
    → Leaves P (attempt m f) S Q
unfolding attempt
after_attempt {P = P} R S Q m f k l w p = l (m w).1 (m w).0 (Keeps-world P R m k w p)

-- A result that was there before, known at its use.
pub leaves_lift {κ} :
    {A : Type 0} {P Q : World → Type κ} (r : Result A)
    → ((w : World) → P w → Q w)
    → Leaves P (lift r) (λ a w. P w × (r ≡ ok a)) Q
leaves_lift (ok a) q w p = (p, refl)
leaves_lift (err e) q w p = q w p

pub leaves_read {κ} :
    {A : Type 0} {P Q : World → Type κ} (ptr : Ptr) (field : Peer → A)
    → ((w : World) → P w → Q w)
    → Leaves P
        (read_peer ptr field)
        (λ a w. P w × ((p : ℕ) → ptr ≡ some p → a ≡ field (deref w.peers.heap p)))
        Q
leaves_read none field q w p = q w p
leaves_read (some i) field q w p = (p, λ j e. cc)

pub leaves_on_peer {κ} :
    {A : Type 0} {P Q : World → Type κ} (ptr : Ptr) (method : Peer → Peer × Result A)
    → ((w : World) → P w → Q w)
    → ((w : World) (i : ℕ) → P w → P (record w { peers = update w.peers i (λ x. (method x).0) }))
    → Leaves P (on_peer ptr method) (λ _. P) Q
leaves_on_peer none method q k w p = q w p
leaves_on_peer {A = A} {P = P} {Q = Q} (some i) method q k w p =
    go (record w { peers = update w.peers i (λ x. (method x).0) }) (method (deref w.peers.heap i)).1
      (k w i p)
  where
    go : (w' : World) (r : Result A) → P w' → Post Q (λ _. P) (w', r)
    go w' (ok a) p' = p'
    go w' (err e) p' = q w' p'

-- What a property of the peers alone says does not change by a call outside.
pub leaves_call {κ} :
    {P Q : World → Type κ} (c : Call) (answer : Result ℕ)
    → ((w : World) → P w → Q w)
    → ((w : World) (calls : _) → P w → P (record w { calls = calls }))
    → Leaves P (call c answer) (λ _. P) Q
leaves_call c (ok n) q k w p = k w _ p
leaves_call c (err e) q k w p = q _ (k w _ p)
