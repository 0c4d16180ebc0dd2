-- ===== src/Protocol/ReplayWindow/History.antt =====
-- internal/protocol/replay_window.go: what the window remembers. The bitmap is the set of the accepted sequences among the
-- highest 64. The specification keeps every accepted sequence, and has no bitmap.
use native.Mathlib.Nat.{mod-eq_of_lt, pow-le-pow_right, one-le-pow}
use Prim.Native.Nat.{max}
use elevpn.Prelude.{
  ℕ, zero, suc, ◌+◌, ◌-◌, ◌*◌, ◌^◌, ◌≤◌, ◌<◌, bit_and, bit_or, ◌≡◌, ◌≢◌, refl, ap, Bool, true,
  false, ◌||◌, not, leb, ◌==◌, if◌then◌else◌, Bool-cases, inl, inr, List, [], ◌∷◌, arith, sentinel,
  wrap, invalid_sequence, sequence_too_old, duplicate_sequence, Result, ok, err, All, dec_lt,
}
use elevpn.Prelude.Bits.{
  test_bit, test_bit-or, test_bit-pow_self, test_bit-pow_ne, test_bit-shift_below, test_bit-shift,
  test_bit-mod, bit_and-pow,
}
use elevpn.Protocol.ReplayWindow.{ReplayWindow, new_window, replay_window_size, shl64}

abbrev pub member : ℕ → List ℕ → Bool
member s [] = false
member s (x ∷ xs) = x == s || member s xs

abbrev pub bit_of : Bool → ℕ
bit_of true = 1
bit_of false = 0

-- The answer of the specification to `s`, when `highest` is the highest of the `accepted` sequences.
unfoldable pub verdict : ℕ → List ℕ → ℕ → Result (Unit {0})
verdict highest accepted s =
    if s == 0
    then err (wrap (sentinel invalid_sequence))
    else if leb (s + replay_window_size) highest
    then err (wrap (sentinel sequence_too_old))
    else if member s accepted
    then err (wrap (sentinel duplicate_sequence))
    else ok tt

-- The accepted sequences after the answer.
abbrev pub after : Result (Unit {0}) → List ℕ → ℕ → List ℕ
after (ok _) accepted s = s ∷ accepted
after (err _) accepted s = accepted

pub record Remembers (w : ReplayWindow) (accepted : List ℕ) : Type 0 where
  pub in_range : All (λ s. s ≤ w.highest) accepted
  pub positive : All (λ s. 0 < s) accepted
  pub fits : w.bitmap < 2 ^ 64
  pub bits :
      (i : ℕ)
      → i < 64
      → i < w.highest
      → test_bit w.bitmap i ≡ bit_of (member (w.highest - i) accepted)

pub new_window-Remembers : Remembers new_window []
new_window-Remembers = record {
  in_range = tt;
  positive = tt;
  fits = omega arith;
  bits = λ i h k. absurd (omega arith);
}

pub not_member_above :
    (h : ℕ) (xs : List ℕ) (s : ℕ) → All (λ x. x ≤ h) xs → h < s → member s xs ≡ false
not_member_above h [] s a lt = refl
not_member_above h (x ∷ xs) s a lt = ground (arith, a.0, not_member_above h xs s a.1)

pub All-le_mono : (h k : ℕ) (xs : List ℕ) → h ≤ k → All (λ x. x ≤ h) xs → All (λ x. x ≤ k) xs
All-le_mono h k [] le a = tt
All-le_mono h k (x ∷ xs) le a = (omega arith, All-le_mono h k xs le a.1)

pub pow_lt_64 : (k : ℕ) → k < 64 → 2 ^ k < 2 ^ 64
pow_lt_64 k h =
    let le : 2 ^ k ≤ 2 ^ 63 =
      pow-le-pow_right {n = 2} (omega arith) {i = k} {j = 63} (omega arith) in
    omega arith

pub mask_lem : (k : ℕ) → k < 64 → shl64 1 k ≡ 2 ^ k
unfolding shl64
mask_lem k h = omega (arith, mod-eq_of_lt (pow_lt_64 k h))

pub shl64-lt : (x k : ℕ) → shl64 x k < 2 ^ 64
unfolding shl64
shl64-lt x k = omega arith

test_bit-one : (i : ℕ) → 0 < i → test_bit 1 i ≡ 0
test_bit-one i h = test_bit-pow_ne 0 i (λ e. omega arith)

-- A window that was just started holds its highest sequence alone.
pub restarted_bits :
    (h s : ℕ) (xs : List ℕ)
    → All (λ x. x ≤ h) xs
    → (i : ℕ) → h + i < s
    → i < s
    → test_bit 1 i ≡ bit_of (member (s - i) (s ∷ xs))
restarted_bits h s xs a zero k l = ground arith
restarted_bits h s xs a (suc i) k l =
    ground (arith, not_member_above h xs (s - suc i) a, test_bit-one (suc i))

-- After a shift the old bits stand `o` places higher, and bit 0 is the new sequence.
shifted_bit : (b o i : ℕ) → i < 64 → test_bit (shl64 b o) i ≡ test_bit (b * 2 ^ o) i
unfolding shl64
shifted_bit b o i h = test_bit-mod (b * 2 ^ o) 64 i h

-- The bits after a shift by `o` and a new bit 0.
pub shifted_bits :
    (b h o : ℕ) (xs : List ℕ)
    → All (λ x. x ≤ h) xs
    → ((i : ℕ) → i < 64 → i < h → test_bit b i ≡ bit_of (member (h - i) xs))
    → 0 < o
    → (i : ℕ) → i < 64
    → i < h + o
    → test_bit (bit_or (shl64 b o) 1) i ≡ bit_of (member (h + o - i) ((h + o) ∷ xs))
shifted_bits b h o xs a old pos zero l k =
    rw (test_bit-or (shl64 b o) 1 0)
      (ground (arith, shifted_bit b o 0 l, test_bit-shift_below b o 0 pos))
shifted_bits b h o xs a old pos (suc i) l k =
    rw
      (
        test_bit-or (shl64 b o) 1 (suc i),
        shifted_bit b o (suc i) l,
        test_bit-one (suc i) (omega arith),
      )
      (elim (dec_lt (suc i) o) [
        | yes low ↦
            ground
              (arith, test_bit-shift_below b o (suc i) low, not_member_above h xs (h + o - suc i) a)
        | no high ↦
            let at : h + o - suc i ≡ h - (suc i - o) = omega arith in
            ground (
              arith,
              test_bit-shift b o (suc i) (omega arith),
              old (suc i - o) (omega arith) (omega arith),
              ap (λ (t : ℕ). member t xs) at,
            )
      ])

mark_bit : (t m : Bool) → max (bit_of m) (bit_of t) ≡ bit_of (t || m)
mark_bit true true = refl
mark_bit true false = refl
mark_bit false true = refl
mark_bit false false = refl

-- Setting bit `h - s` records `s`.
pub marked_bits :
    (b h s i : ℕ) (xs : List ℕ)
    → s ≤ h
    → i < h
    → test_bit b i ≡ bit_of (member (h - i) xs)
    → test_bit (bit_or b (2 ^ (h - s))) i ≡ bit_of (member (h - i) (s ∷ xs))
marked_bits b h s i xs le k old =
    rw (test_bit-or b (2 ^ (h - s)) i, old)
      (elim (Bool-cases (s == h - i)) [
        | inl here ↦
            let at : h - s ≡ i = ground arith in
            rw (at, test_bit-pow_self i, here) (mark_bit true (member (h - i) xs))
        | inr other ↦
            let off : h - s ≢ i = ground arith in
            rw (test_bit-pow_ne (h - s) i off, other) (mark_bit false (member (h - i) xs))
      ])

-- The test of the mask finds out whether the sequence was accepted.
pub seen_lem :
    (w : ReplayWindow) (xs : List ℕ) (s : ℕ)
    → Remembers w xs
    → 0 < s
    → s ≤ w.highest
    → w.highest - s < 64
    → not (bit_and w.bitmap (shl64 1 (w.highest - s)) == 0) ≡ member s xs
seen_lem w xs s r pos le near =
    let at : w.highest - (w.highest - s) ≡ s = omega arith in
    let bit = r.bits (w.highest - s) near (omega arith) in
    rw (mask_lem (w.highest - s) near, bit_and-pow w.bitmap (w.highest - s), bit, at)
      (elim (Bool-cases (member s xs)) [
        | inl seen ↦ rw seen (ground (arith, one-le-pow (w.highest - s) 2 (omega arith)))
        | inr fresh ↦ rw fresh (ground arith)
      ])
