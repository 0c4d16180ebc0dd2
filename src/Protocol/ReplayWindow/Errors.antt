-- ===== src/Protocol/ReplayWindow/Errors.antt =====
-- internal/protocol/replay_window.go: the errors of `Accept`.
use elevpn.Prelude.{
  ℕ, ◌-◌, ◌≡◌, ◌⊎◌, inl, inr, sym, Bool, true, false, not, ltb, leb, ◌==◌, bit_and, if◌then◌else◌,
  Error, sentinel, wrap, invalid_sequence, sequence_too_old, duplicate_sequence, Result, err,
  ok-ne-err, err-injective,
}
use elevpn.Protocol.ReplayWindow.{ReplayWindow, shl64, accept_older, accept}

abbrev pub IsReplayError : Error → Type 0
IsReplayError e =
    (e ≡ wrap (sentinel invalid_sequence))
    ⊎ ((e ≡ wrap (sentinel sequence_too_old)) ⊎ (e ≡ wrap (sentinel duplicate_sequence)))

either {κ} :
    {G : Type κ} (b : Bool) (x y : ReplayWindow × Result (Unit {0})) (e : Error)
    → (if b then x else y).1 ≡ err e
    → (x.1 ≡ err e → G)
    → (y.1 ≡ err e → G)
    → G
either true x y e h k l = k h
either false x y e h k l = l h

accept_older-err :
    (w : ReplayWindow) (seq : ℕ) (e : Error) → (accept_older w seq).1 ≡ err e → IsReplayError e
unfolding accept_older
accept_older-err w seq e h =
    either (leb 64 (w.highest - seq)) _ _ e h (λ a. inr (inl (sym (err-injective a))))
      (λ b.
        either (not (bit_and w.bitmap (shl64 1 (w.highest - seq)) == 0)) _ _ e b
          (λ c. inr (inr (sym (err-injective c)))) (λ d. absurd (ok-ne-err d)))

-- `Accept` fails with one of its three errors only.
pub accept-err :
    (w : ReplayWindow) (seq : ℕ) (e : Error) → (accept w seq).1 ≡ err e → IsReplayError e
unfolding accept
accept-err w seq e h =
    either (seq == 0) _ _ e h (λ a. inl (sym (err-injective a)))
      (λ b.
        either (w.highest == 0) _ _ e b (λ d. absurd (ok-ne-err d))
          (λ c.
            either (ltb w.highest seq) _ _ e c (λ d. absurd (ok-ne-err d))
              (λ d. accept_older-err w seq e d)))
