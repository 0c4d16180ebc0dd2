-- ===== src/Bytes/NativeEndian.antt =====
-- encoding/binary's `NativeEndian`: the byte order of the machine, which is one of two.
use native.Mathlib.Nat.{pow-suc}
use elevpn.Prelude.{
  ℕ, zero, suc, ◌+◌, ◌*◌, ◌/◌, ◌%◌, ◌^◌, ◌<◌, ◌≡◌, refl, ap, [], ◌∷◌, arith, length,
}
use elevpn.Bytes.BigEndian.{Bytes, put_be, be, length-put_be, be-put_be_fits}

pub data ByteOrder : Type 0 where
  little big : ByteOrder

-- The low byte first.
unfoldable pub put_le : ℕ → ℕ → Bytes
put_le zero v = []
put_le (suc n) v = (v % 256) ∷ put_le n (v / 256)

unfoldable pub le : Bytes → ℕ
le [] = 0
le (b ∷ bs) = b + 256 * le bs

-- `PutUint16` and `PutUint32` are `put_ne` at 2 and 4 bytes, and cut the number to that size.
unfoldable pub put_ne : ByteOrder → ℕ → ℕ → Bytes
unfolding put_le put_be
put_ne little n v = put_le n v
put_ne big n v = put_be n v

-- `Uint16` and `Uint32`, of a slice of that length.
unfoldable pub ne : ByteOrder → Bytes → ℕ
unfolding le be
ne little bs = le bs
ne big bs = be bs

length-put_le : (n v : ℕ) → length (put_le n v) ≡ n
unfolding put_le
length-put_le zero v = refl
length-put_le (suc n) v = ap suc (length-put_le n (v / 256))

pub length-put_ne : (o : ByteOrder) (n v : ℕ) → length (put_ne o n v) ≡ n
unfolding put_ne
length-put_ne little n v = length-put_le n v
length-put_ne big n v = length-put_be n v

le-put_le_fits : (n v : ℕ) → v < 256 ^ n → le (put_le n v) ≡ v
unfolding le put_le
le-put_le_fits zero v h = omega arith
le-put_le_fits (suc n) v h =
    omega (arith, le-put_le_fits n (v / 256) (omega (arith, pow-suc 256 n)))

pub ne-put_ne_fits : (o : ByteOrder) (n v : ℕ) → v < 256 ^ n → ne o (put_ne o n v) ≡ v
unfolding ne put_ne
ne-put_ne_fits little n v h = le-put_le_fits n v h
ne-put_ne_fits big n v h = be-put_be_fits n v h
