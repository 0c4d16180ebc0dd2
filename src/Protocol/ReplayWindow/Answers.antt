-- ===== src/Protocol/ReplayWindow/Answers.antt =====
-- internal/protocol/replay_window.go: `Accept` against its specification, branch by branch.
use Prim.Native.Nat.{max}
use elevpn.Prelude.{
  ◌↔◌, Error, ℕ, zero, suc, ◌+◌, ◌-◌, ◌^◌, ◌≤◌, ◌<◌, bit_or, ◌≡◌, ◌⊎◌, refl, subst, true, false,
  ltb, leb, ◌==◌, Bool-cases, inl, inr, List, ◌∷◌, arith, sentinel, wrap, invalid_sequence,
  sequence_too_old, duplicate_sequence, Result, ok, err,
}
use elevpn.Prelude.Bits.{bit_or-lt}
use elevpn.Protocol.ReplayWindow.{ReplayWindow, shl64, accept_newer, accept_older, accept}
use elevpn.Protocol.ReplayWindow.History.{
  member, verdict, after, Remembers, not_member_above, All-le_mono, pow_lt_64, mask_lem, shl64-lt,
  restarted_bits, shifted_bits, marked_bits, seen_lem,
}

-- The code answers as the specification does, and remembers what the specification accepted.
abbrev pub Agrees : ReplayWindow → List ℕ → ℕ → ReplayWindow × Result (Unit {0}) → Type 0
Agrees w xs s r =
    (r.1 ≡ verdict w.highest xs s) × Remembers r.0 (after (verdict w.highest xs s) xs s)

restart-Remembers :
    (w : ReplayWindow) (xs : List ℕ) (s : ℕ)
    → Remembers w xs
    → w.highest < s
    → (w.highest ≡ 0) ⊎ (w.highest + 64 ≤ s)
    → Remembers (record { highest = s; bitmap = 1 }) (s ∷ xs)
restart-Remembers w xs s r lt far = record {
  in_range = (omega arith, All-le_mono w.highest s xs (omega arith) r.in_range);
  positive = (omega arith, r.positive);
  fits = omega arith;
  bits = λ i l k. restarted_bits w.highest s xs r.in_range i (omega arith) k;
}

shift-Remembers :
    (w : ReplayWindow) (xs : List ℕ) (o : ℕ)
    → Remembers w xs
    → 0 < o
    → Remembers
        (record { highest = w.highest + o; bitmap = bit_or (shl64 w.bitmap o) 1 })
        ((w.highest + o) ∷ xs)
shift-Remembers w xs o r pos = record {
  in_range = (omega arith, All-le_mono w.highest (w.highest + o) xs (omega arith) r.in_range);
  positive = (omega arith, r.positive);
  fits = bit_or-lt (shl64 w.bitmap o) 1 64 (shl64-lt w.bitmap o) (omega arith);
  bits = shifted_bits w.bitmap w.highest o xs r.in_range r.bits pos;
}

newer-Remembers :
    (w : ReplayWindow) (xs : List ℕ) (s : ℕ)
    → Remembers w xs
    → w.highest < s
    → Remembers (accept_newer w s) (s ∷ xs)
unfolding accept_newer
newer-Remembers w xs s r lt = elim (Bool-cases (leb 64 (s - w.highest))) [
  | inl far ↦ rw far (restart-Remembers w xs s r lt (inr (ground arith)))
  | inr near ↦
      let o = s - w.highest in
      rw near (
        subst
          (λ t. Remembers (record { highest = t; bitmap = bit_or (shl64 w.bitmap o) 1 }) (t ∷ xs))
          (omega arith) (shift-Remembers w xs o r (omega arith)))
]

-- The answers of the specification and of the code, one by one.
module _ (h : ℕ) (xs : List ℕ) (s : ℕ) (pos : 0 < s) where
  verdict_old : s + 64 ≤ h → verdict h xs s ≡ err (wrap (sentinel sequence_too_old))
  unfolding verdict
  verdict_old far = ground arith

  verdict_seen :
      h < s + 64 → member s xs ≡ true → verdict h xs s ≡ err (wrap (sentinel duplicate_sequence))
  unfolding verdict
  verdict_seen near seen = ground arith

  verdict_fresh : h < s + 64 → member s xs ≡ false → verdict h xs s ≡ ok tt
  unfolding verdict
  verdict_fresh near fresh = ground arith

marked-Remembers :
    (w : ReplayWindow) (xs : List ℕ) (s : ℕ)
    → Remembers w xs
    → 0 < s
    → s ≤ w.highest
    → w.highest - s < 64
    → Remembers (record w { bitmap = bit_or w.bitmap (shl64 1 (w.highest - s)) }) (s ∷ xs)
marked-Remembers w xs s r pos le near = rw (mask_lem (w.highest - s) near) (record {
  in_range = (le, r.in_range);
  positive = (pos, r.positive);
  fits = bit_or-lt w.bitmap (2 ^ (w.highest - s)) 64 r.fits (pow_lt_64 _ near);
  bits = λ i l k. marked_bits w.bitmap w.highest s i xs le k (r.bits i l k);
})

older-Agrees :
    (w : ReplayWindow) (xs : List ℕ) (s : ℕ)
    → Remembers w xs
    → 0 < s
    → s ≤ w.highest
    → Agrees w xs s (accept_older w s)
unfolding accept_older
older-Agrees w xs s r pos le = elim (Bool-cases (leb 64 (w.highest - s))) [
  | inl far ↦ rw (verdict_old w.highest xs s pos (ground arith), far) (refl, r)
  | inr near ↦
      let o : w.highest - s < 64 = ground arith in
      let test = seen_lem w xs s r pos le o in
      elim (Bool-cases (member s xs)) [
        | inl seen ↦
            rw (verdict_seen w.highest xs s pos (omega arith) seen, near, test, seen) (refl, r)
        | inr fresh ↦
            rw (verdict_fresh w.highest xs s pos (omega arith) fresh, near, test, fresh)
              (refl, marked-Remembers w xs s r pos le o)
      ]
]

-- An accepted sequence above all others, in either of the branches for it.
above-Agrees :
    (w w' : ReplayWindow) (xs : List ℕ) (s : ℕ)
    → Remembers w xs
    → w.highest < s
    → Remembers w' (s ∷ xs)
    → Agrees w xs s (w', ok tt)
above-Agrees w w' xs s r lt r' =
    rw
      (verdict_fresh w.highest xs s (omega arith) (omega arith)
        (not_member_above w.highest xs s r.in_range lt))
      (refl, r')

zero-Agrees :
    (w : ReplayWindow) (xs : List ℕ)
    → Remembers w xs
    → Agrees w xs 0 (w, err (wrap (sentinel invalid_sequence)))
unfolding verdict
zero-Agrees w xs r = (refl, r)

not_zero : (n : ℕ) → (suc n == 0) ≡ false
not_zero n = ground arith

-- Whatever was accepted before, `Accept` gives the answer of the specification, and the window
-- remembers the sequence exactly when it was accepted.
pub accept-Agrees :
    (w : ReplayWindow) (xs : List ℕ) (s : ℕ) → Remembers w xs → Agrees w xs s (accept w s)
unfolding accept
accept-Agrees w xs zero r = zero-Agrees w xs r
accept-Agrees w xs (suc n) r = rw (not_zero n) (elim (Bool-cases (w.highest == 0)) [
  | inl first ↦
      let low : w.highest < suc n = ground arith in
      rw first (
        above-Agrees w _ xs (suc n) r low
          (restart-Remembers w xs (suc n) r low (inl (ground arith))))
  | inr later ↦ elim (Bool-cases (ltb w.highest (suc n))) [
    | inl lt ↦
        let low : w.highest < suc n = ground arith in
        rw (later, lt) (above-Agrees w _ xs (suc n) r low (newer-Remembers w xs (suc n) r low))
    | inr ge ↦ rw (later, ge) (older-Agrees w xs (suc n) r (omega arith) (ground arith))
  ]
])

-- An error leaves the window as it was, and an accepted sequence raises the highest one if it can.
abbrev pub raised : Result (Unit {0}) → ℕ → ℕ → ℕ
raised (ok _) highest s = max highest s
raised (err _) highest s = highest

pub highest-accept :
    (w : ReplayWindow) (s : ℕ) → (accept w s).0.highest ≡ raised (accept w s).1 w.highest s
unfolding accept accept_newer accept_older
highest-accept w s = ground arith

pub accept_error_unchanged :
    (w : ReplayWindow) (s : ℕ) {e : Error} → (accept w s).1 ≡ err e → (accept w s).0 ≡ w
unfolding accept accept_older
accept_error_unchanged w s h = ground arith

pub verdict-eq-ok :
    (h : ℕ) (xs : List ℕ) (s : ℕ)
    → (verdict h xs s ≡ ok tt) ↔ ((0 < s) × (h < s + 64) × (member s xs ≡ false))
unfolding verdict
verdict-eq-ok h xs s = (λ e. ground arith, λ e. ground arith)
