-- ===== src/Protocol/ReplayWindow/Runs.antt =====
-- internal/protocol/replay_window.go, whole runs of `Accept`: what a receiver that keeps one window accepts and refuses.
use Prim.Native.Nat.{max}
use elevpn.Prelude.{
  ◌↔◌, ◌++◌, ℕ, ◌+◌, ◌<◌, ◌≡◌, ◌≢◌, refl, true, false, List, [], ◌∷◌, arith, Result, ok, err, sym,
  ◌∙◌,
}
use elevpn.Protocol.ReplayWindow.{ReplayWindow, new_window, accept}
use elevpn.Protocol.ReplayWindow.History.{member, verdict, after, Remembers, new_window-Remembers}
use elevpn.Protocol.ReplayWindow.Answers.{accept-Agrees, verdict-eq-ok, highest-accept, raised}

-- A receiver's window, and the sequences that it has accepted, newest first.
pub record Receiver : Type 0 where
  pub window : ReplayWindow
  pub accepted : List ℕ

abbrev pub new_receiver : Receiver
new_receiver = record { window = new_window; accepted = [] }

unfoldable pub receive : Receiver → ℕ → Receiver
receive r s =
    let (w, answer) = accept r.window s in
    record { window = w; accepted = after answer r.accepted s }

unfoldable pub receive_all : Receiver → List ℕ → Receiver
unfolding receive
receive_all r [] = r
receive_all r (s ∷ ss) = receive_all (receive r s) ss

abbrev pub AllDistinct : List ℕ → Type 0
AllDistinct [] = Unit {0}
AllDistinct (x ∷ xs) = (member x xs ≡ false) × AllDistinct xs

-- The highest number of a list, 0 for the empty list.
abbrev pub top : List ℕ → ℕ
top [] = 0
top (x ∷ xs) = max (top xs) x

pub record IsSound (r : Receiver) : Type 0 where
  pub remembers : Remembers r.window r.accepted
  pub distinct : AllDistinct r.accepted
  pub topped : r.window.highest ≡ top r.accepted

new_receiver-IsSound : IsSound new_receiver
new_receiver-IsSound = record { remembers = new_window-Remembers; distinct = tt; topped = refl }

after_distinct :
    (v : Result (Unit {0})) (h s : ℕ) (xs : List ℕ)
    → v ≡ verdict h xs s
    → AllDistinct xs
    → AllDistinct (after v xs s)
after_distinct (ok _) h s xs e d = (((verdict-eq-ok h xs s).0 (sym e)).2, d)
after_distinct (err _) h s xs e d = d

after_topped :
    (v : Result (Unit {0})) (h s : ℕ) (xs : List ℕ) → h ≡ top xs → raised v h s ≡ top (after v xs s)
after_topped (ok _) h s xs e = omega arith
after_topped (err _) h s xs e = e

pub receive-IsSound : (r : Receiver) (s : ℕ) → IsSound r → IsSound (receive r s)
unfolding receive
receive-IsSound r s h =
    let (answer, kept) = accept-Agrees r.window r.accepted s h.remembers in
    record {
      remembers = rw answer kept;
      distinct =
          after_distinct (accept r.window s).1 r.window.highest s r.accepted answer h.distinct;
      topped =
          highest-accept r.window s
          ∙ after_topped (accept r.window s).1 r.window.highest s r.accepted h.topped;
    }

receive_all_kept : (r : Receiver) (ss : List ℕ) → IsSound r → IsSound (receive_all r ss)
unfolding receive_all
receive_all_kept r [] h = h
receive_all_kept r (s ∷ ss) h = receive_all_kept (receive r s) ss (receive-IsSound r s h)

-- After any packets at all, in any order, no sequence has been accepted twice, the window holds the
-- highest accepted sequence, and its bitmap is the set of the accepted ones among the last 64.
pub receive_all-IsSound : (ss : List ℕ) → IsSound (receive_all new_receiver ss)
receive_all-IsSound ss = receive_all_kept new_receiver ss new_receiver-IsSound

-- After any packets, `Accept` takes a sequence exactly when it is not 0, less than 64 below the
-- highest accepted one or above it, and not accepted before.
pub accept-ok_iff :
    (ss : List ℕ) (s : ℕ)
    → let r = receive_all new_receiver ss in
      ((accept r.window s).1 ≡ ok tt)
      ↔ ((0 < s) × (top r.accepted < s + 64) × (member s r.accepted ≡ false))
accept-ok_iff ss s =
    let r = receive_all new_receiver ss in
    let sound = receive_all-IsSound ss in
    let answer = (accept-Agrees r.window r.accepted s sound.remembers).0 in
    rw (answer, sound.topped) (verdict-eq-ok (top r.accepted) r.accepted s)

after-member :
    (v : Result (Unit {0})) (s t : ℕ) (xs : List ℕ)
    → member s xs ≡ true
    → member s (after v xs t) ≡ true
after-member (ok _) s t xs m = ground arith
after-member (err _) s t xs m = m

member-receive :
    (r : Receiver) (s t : ℕ) → member s r.accepted ≡ true → member s (receive r t).accepted ≡ true
unfolding receive
member-receive r s t m = after-member (accept r.window t).1 s t r.accepted m

member-receive_all :
    (r : Receiver) (s : ℕ) (ss : List ℕ)
    → member s r.accepted ≡ true
    → member s (receive_all r ss).accepted ≡ true
unfolding receive_all
member-receive_all r s [] m = m
member-receive_all r s (t ∷ ss) m = member-receive_all (receive r t) s ss (member-receive r s t m)

member-receive_self :
    (r : Receiver) (s : ℕ) → (accept r.window s).1 ≡ ok tt → member s (receive r s).accepted ≡ true
unfolding receive
member-receive_self r s e = rw e (ground arith)

receive_all-append :
    (r : Receiver) (ss ts : List ℕ) → receive_all r (ss ++ ts) ≡ receive_all (receive_all r ss) ts
unfolding receive_all
receive_all-append r [] ts = refl
receive_all-append r (s ∷ ss) ts = receive_all-append (receive r s) ss ts

-- A sequence that was accepted is refused from then on, whatever came before it and in between.
pub accept_replay_refused :
    (before between : List ℕ) (s : ℕ)
    → (accept (receive_all new_receiver before).window s).1 ≡ ok tt
    → (accept (receive_all new_receiver (before ++ (s ∷ between))).window s).1 ≢ ok tt
unfolding receive_all
accept_replay_refused before between s first again =
    let r = receive_all new_receiver before in
    let seen = member-receive_all (receive r s) s between (member-receive_self r s first) in
    let unseen = ((accept-ok_iff (before ++ (s ∷ between)) s).0 again).2 in
    cc (receive_all-append new_receiver before (s ∷ between), seen, unseen)
