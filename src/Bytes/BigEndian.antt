-- ===== src/Bytes/BigEndian.antt =====
-- A byte slice is a list of numbers below 256. `binary.BigEndian` writes the high byte first.
use native.Mathlib.Nat.{
  pow-suc, div-add-mod, mod-lt, one-le-pow, div-div-eq-div-mul, add_comm, add-mul-div_right,
  div-eq_of_lt, mod-eq_of_lt,
}
use elevpn.Prelude.{
  ℕ, zero, suc, ◌+◌, ◌*◌, ◌/◌, ◌%◌, ◌^◌, ◌<◌, ◌≡◌, refl, sym, ap, ap₂, ◌∙◌, List, [], ◌∷◌, arith,
  length, All,
}

abbrev pub Bytes : Type 0
Bytes = List ℕ

abbrev pub IsByte : ℕ → Type 0
IsByte b = b < 256

abbrev pub IsBytes : Bytes → Type 0
IsBytes = All IsByte

-- `PutUint16`, `PutUint32` and `PutUint64` are `put_be` at 2, 4 and 8 bytes.
unfoldable pub put_be : ℕ → ℕ → Bytes
put_be zero v = []
put_be (suc n) v = (v / 256 ^ n % 256) ∷ put_be n v

-- `Uint16`, `Uint32` and `Uint64`, of a slice of that length.
unfoldable pub be : Bytes → ℕ
be [] = 0
be (b ∷ bs) = b * 256 ^ length bs + be bs

pub length-put_be : (n v : ℕ) → length (put_be n v) ≡ n
unfolding put_be
length-put_be zero v = refl
length-put_be (suc n) v = ap suc (length-put_be n v)

pub put_be-IsBytes : (n v : ℕ) → IsBytes (put_be n v)
unfolding put_be
put_be-IsBytes zero v = tt
put_be-IsBytes (suc n) v = (mod-lt _ (omega arith), put_be-IsBytes n v)

pow_pos : (n : ℕ) → 0 < 256 ^ n
pow_pos n = one-le-pow n 256 (omega arith)

-- The number cut to `n + 1` bytes is its byte `n` and the number cut to `n` bytes.
split_byte : (n v : ℕ) → v % 256 ^ suc n ≡ v / 256 ^ n % 256 * 256 ^ n + v % 256 ^ n
split_byte n v =
    let top : v / 256 ^ suc n ≡ v / 256 ^ n / 256 =
      ap (λ (t : ℕ). v / t) (pow-suc 256 n) ∙ sym (div-div-eq-div-mul v (256 ^ n) 256) in
    omega (
      arith,
      div-add-mod v (256 ^ suc n),
      div-add-mod v (256 ^ n),
      ap (λ (t : ℕ). 256 ^ n * t) (div-add-mod (v / 256 ^ n) 256),
      ap (λ (t : ℕ). 256 ^ suc n * t) top,
      ap (λ (t : ℕ). t * (v / 256 ^ n / 256)) (pow-suc 256 n),
    )

pub be-put_be : (n v : ℕ) → be (put_be n v) ≡ v % 256 ^ n
unfolding be put_be
be-put_be zero v = omega arith
be-put_be (suc n) v =
    ap₂ (λ (l r : ℕ). v / 256 ^ n % 256 * 256 ^ l + r) (length-put_be n v) (be-put_be n v)
    ∙ sym (split_byte n v)

pub be-put_be_fits : (n v : ℕ) → v < 256 ^ n → be (put_be n v) ≡ v
be-put_be_fits n v h = be-put_be n v ∙ mod-eq_of_lt h

pub be-lt : (bs : Bytes) → IsBytes bs → be bs < 256 ^ length bs
unfolding be
be-lt [] h = omega arith
be-lt (b ∷ bs) h =
    let tail = be-lt bs h.1 in rw (pow-suc 256 (length bs)) (grind (arith, h.0, tail))

quotient_add : (n q r : ℕ) → (q * 256 ^ n + r) / 256 ^ n ≡ r / 256 ^ n + q
quotient_add n q r =
    ap (λ (t : ℕ). t / 256 ^ n) (add_comm (q * 256 ^ n) r) ∙ add-mul-div_right r q (pow_pos n)

high_digit : (n q r : ℕ) → q % 256 ≡ 0 → (q * 256 ^ n + r) / 256 ^ n % 256 ≡ r / 256 ^ n % 256
high_digit n q r h = omega (arith, quotient_add n q r)

-- Bytes above the ones that are written do not matter.
put_be_high : (n q r : ℕ) → put_be n (q * 256 ^ n + r) ≡ put_be n r
unfolding put_be
put_be_high zero q r = refl
put_be_high (suc n) q r =
    let shifted : q * 256 ^ suc n + r ≡ q * 256 * 256 ^ n + r =
      omega (arith, ap (λ (t : ℕ). q * t) (pow-suc 256 n)) in
    rw shifted (ap₂ ◌∷◌ (high_digit n (q * 256) r (omega arith)) (put_be_high n (q * 256) r))

pub put_be-be : (bs : Bytes) → IsBytes bs → put_be (length bs) (be bs) ≡ bs
unfolding be put_be
put_be-be [] h = refl
put_be-be (b ∷ bs) h =
    let tail : be bs / 256 ^ length bs ≡ 0 = div-eq_of_lt (be-lt bs h.1) in
    ap₂ ◌∷◌ (omega (arith, quotient_add (length bs) b (be bs), tail, h.0))
      (put_be_high (length bs) b (be bs) ∙ put_be-be bs h.1)
