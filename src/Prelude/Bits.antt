-- ===== src/Prelude/Bits.antt =====
-- Single bits of a number, and what `|`, `&` and `<<` do to them, at every width.
use Prim.Native.Nat.{
  ℕ, zero, suc, ◌+◌, ◌-◌, ◌*◌, ◌/◌, ◌%◌, ◌^◌, ◌≤◌, ◌<◌, min, max, digits, bitwise, bit_and, bit_or,
  bit_and-bitwise, bit_or-bitwise,
}
use mathlib.Core.Path.{◌≡◌, refl, sym, ap, ◌∙◌}
use mathlib.Core.Logic.{◌≢◌}
use native.Mathlib.Nat.{
  le_refl, pow-suc, div-add-mod, mod-lt, one-le-pow, div-div-eq-div-mul, mul_comm,
}
use native.Mathlib.Omega.{arith}

-- The native operations recurse on binary digits with fuel: more fuel than needed changes nothing.
module _ (z : ℕ → ℕ) (f : ℕ → ℕ → ℕ) where
  digits_enough : (n m a b : ℕ) → a ≤ n → a ≤ m → digits z f n a b ≡ digits z f m a b
  digits_enough zero zero a b p q = refl
  digits_enough zero (suc m) zero b p q = refl
  digits_enough zero (suc m) (suc a) b p q = absurd (omega arith)
  digits_enough (suc n) zero zero b p q = refl
  digits_enough (suc n) zero (suc a) b p q = absurd (omega arith)
  digits_enough (suc n) (suc m) zero b p q = refl
  digits_enough (suc n) (suc m) (suc a) b p q =
      rw (digits_enough n m (suc a / 2) (b / 2) (omega arith) (omega arith))

  lowest_digit :
      (half x : ℕ)
      → bitwise z f (suc half) x ≡ f (suc half % 2) (x % 2) + 2 * bitwise z f (suc half / 2) (x / 2)
  lowest_digit half x =
      omega
        (arith, digits_enough half (suc half / 2) (suc half / 2) (x / 2) (omega arith) (le_refl _))

-- `x | y` and `x & y`, one digit at a time.
or_digit : (x y : ℕ) → bit_or x y ≡ max (x % 2) (y % 2) + 2 * bit_or (x / 2) (y / 2)
or_digit zero y = simp bit_or-bitwise (omega arith)
or_digit (suc half) y = simp bit_or-bitwise (lowest_digit (λ v. v) max half y)

and_digit : (x y : ℕ) → bit_and x y ≡ min (x % 2) (y % 2) + 2 * bit_and (x / 2) (y / 2)
and_digit zero y = simp bit_and-bitwise (omega arith)
and_digit (suc half) y = simp bit_and-bitwise (lowest_digit (λ v. 0) min half y)

-- Bit `i` of `x`, as 0 or 1.
abbrev pub test_bit : ℕ → ℕ → ℕ
test_bit x zero = x % 2
test_bit x (suc i) = test_bit (x / 2) i

pub test_bit-lt : (x i : ℕ) → test_bit x i < 2
test_bit-lt x zero = omega arith
test_bit-lt x (suc i) = test_bit-lt (x / 2) i

pub test_bit-zero : (i : ℕ) → test_bit 0 i ≡ 0
test_bit-zero zero = refl
test_bit-zero (suc i) = test_bit-zero i

or_halves : (x y : ℕ) → bit_or x y / 2 ≡ bit_or (x / 2) (y / 2)
or_halves x y = omega (arith, or_digit x y)

pub test_bit-or : (x y i : ℕ) → test_bit (bit_or x y) i ≡ max (test_bit x i) (test_bit y i)
test_bit-or x y zero = omega (arith, or_digit x y)
test_bit-or x y (suc i) = rw (or_halves x y) (test_bit-or (x / 2) (y / 2) i)

half_pow : (k : ℕ) → 2 ^ suc k / 2 ≡ 2 ^ k
half_pow k = omega (arith, pow-suc 2 k)

pub test_bit-pow_self : (k : ℕ) → test_bit (2 ^ k) k ≡ 1
test_bit-pow_self zero = refl
test_bit-pow_self (suc k) = rw (half_pow k) (test_bit-pow_self k)

pub test_bit-pow_ne : (k i : ℕ) → k ≢ i → test_bit (2 ^ k) i ≡ 0
test_bit-pow_ne zero zero h = absurd (h refl)
test_bit-pow_ne zero (suc i) h = test_bit-zero i
test_bit-pow_ne (suc k) zero h = omega (arith, pow-suc 2 k)
test_bit-pow_ne (suc k) (suc i) h = rw (half_pow k) (test_bit-pow_ne k i (λ e. h (ap suc e)))

-- A shift to the left moves bit `i` to `i + k`, and clears the bits below.
halve_shifted : (x k : ℕ) → x * 2 ^ suc k / 2 ≡ x * 2 ^ k
halve_shifted x k = omega (arith, ap (λ (t : ℕ). x * t) (pow-suc 2 k))

pub test_bit-shift_below : (x k i : ℕ) → i < k → test_bit (x * 2 ^ k) i ≡ 0
test_bit-shift_below x zero i h = absurd (omega arith)
test_bit-shift_below x (suc k) zero h = omega (arith, ap (λ (t : ℕ). x * t) (pow-suc 2 k))
test_bit-shift_below x (suc k) (suc i) h =
    rw (halve_shifted x k) (test_bit-shift_below x k i (omega arith))

pub test_bit-shift : (x k i : ℕ) → k ≤ i → test_bit (x * 2 ^ k) i ≡ test_bit x (i - k)
test_bit-shift x zero i h = ground (arith)
test_bit-shift x (suc k) zero h = absurd (omega arith)
test_bit-shift x (suc k) (suc i) h =
    let e : suc i - suc k ≡ i - k = omega arith in
    rw (halve_shifted x k) (rw e (test_bit-shift x k i (omega arith)))

split_quotient : (x w : ℕ) → 2 ^ suc w * (x / 2 ^ suc w) ≡ 2 * (2 ^ w * (x / 2 / 2 ^ w))
split_quotient x w =
    let outer : x / 2 ^ suc w ≡ x / 2 / 2 ^ w =
      ap (λ (t : ℕ). x / t) (pow-suc 2 w ∙ mul_comm (2 ^ w) 2)
      ∙ sym (div-div-eq-div-mul x 2 (2 ^ w)) in
    rw (outer) (rw (pow-suc 2 w) (omega arith))

-- Cutting to `w` bits keeps the bits below `w` and clears the others.
half_mod : (x w : ℕ) → x % 2 ^ suc w / 2 ≡ x / 2 % 2 ^ w
half_mod x w = omega (
  arith,
  div-add-mod x (2 ^ suc w),
  div-add-mod (x / 2) (2 ^ w),
  split_quotient x w,
  mod-lt x {m = 2 ^ suc w} (one-le-pow (suc w) 2 (omega arith)),
  mod-lt (x / 2) {m = 2 ^ w} (one-le-pow w 2 (omega arith)),
)

pub test_bit-mod : (x w i : ℕ) → i < w → test_bit (x % 2 ^ w) i ≡ test_bit x i
test_bit-mod x zero i h = absurd (omega arith)
test_bit-mod x (suc w) zero h = omega (arith, div-add-mod x (2 ^ suc w), split_quotient x w)
test_bit-mod x (suc w) (suc i) h = rw (half_mod x w) (test_bit-mod (x / 2) w i (omega arith))

-- `x & (1 << k)` is nonzero exactly when bit `k` is set.
and_halves : (x y : ℕ) → bit_and x y / 2 ≡ bit_and (x / 2) (y / 2)
and_halves x y = omega (arith, and_digit x y)

and_zero_below : (n x : ℕ) → x ≤ n → bit_and x 0 ≡ 0
and_zero_below n zero h = refl
and_zero_below zero (suc x) h = absurd (omega arith)
and_zero_below (suc n) (suc x) h =
    omega (arith, and_digit (suc x) 0, and_zero_below n (suc x / 2) (omega arith))

and_zero : (x : ℕ) → bit_and x 0 ≡ 0
and_zero x = and_zero_below x x (le_refl x)

pub bit_and-pow : (x k : ℕ) → bit_and x (2 ^ k) ≡ test_bit x k * 2 ^ k
bit_and-pow x zero = omega (arith, and_digit x 1, and_zero (x / 2))
bit_and-pow x (suc k) = omega (
  arith,
  and_digit x (2 ^ suc k),
  ap (λ (t : ℕ). bit_and (x / 2) t) (half_pow k),
  bit_and-pow (x / 2) k,
  pow-suc 2 k,
  ap (λ (t : ℕ). test_bit (x / 2) k * t) (pow-suc 2 k),
)

-- The union of two numbers of `w` bits has `w` bits.
pub bit_or-lt : (x y w : ℕ) → x < 2 ^ w → y < 2 ^ w → bit_or x y < 2 ^ w
bit_or-lt x y zero p q =
    let ex : x ≡ 0 = omega arith in let ey : y ≡ 0 = omega arith in rw (ex, ey) (omega arith)
bit_or-lt x y (suc w) p q = omega (
  arith,
  or_digit x y,
  pow-suc 2 w,
  bit_or-lt (x / 2) (y / 2) w (omega (arith, pow-suc 2 w)) (omega (arith, pow-suc 2 w)),
)
