-- ===== src/Netlink/Wire/Attrs.antt =====
-- What the receiver of a netlink message reads in its attributes, after netlink(7), and that `putAttr` of
-- internal/netlink/socket.go writes that.
use native.Mathlib.Omega.{arith}
use elevpn.Prelude.{
  ℕ, zero, suc, ◌+◌, ◌-◌, ◌^◌, ◌≤◌, ◌<◌, ◌≡◌, refl, sym, ap, ◌∙◌, ◌||◌, ltb, of_ge, if◌then◌else◌,
  Option, none, some, List, [], ◌∷◌, ◌++◌, append_assoc, append-nil, length, take, drop, replicate,
  length-append, length-replicate, take-append, drop-append, All,
}
use elevpn.Bytes.{
  Bytes, ByteOrder, little, big, put_be, put_ne, put_le, ne, length-put_ne, ne-put_ne_fits,
}
use elevpn.Netlink.Wire.{align4, put_attr}
use elevpn.Netlink.Wire.Read.{IsAligned}

pub record Attr : Type 0 where
  pub typ : ℕ
  pub value : Bytes

module _ (o : ByteOrder) where
  -- An attribute at the front of a buffer, and what is behind its padding.
  unfoldable pub read_attr : Bytes → Option (Attr × Bytes)
  read_attr bs =
      let n = ne o (take 2 bs) in
      if ltb (length bs) 4 || (ltb n 4 || ltb (length bs) n)
      then none
      else some (
        record { typ = ne o (take 2 (drop 2 bs)); value = drop 4 (take n bs) },
        drop (align4 n) bs,
      )

  abbrev then_attr : (Bytes → List Attr) → Option (Attr × Bytes) → List Attr
  then_attr rest none = []
  then_attr rest (some (a, bs)) = a ∷ rest bs

  -- The attributes of a buffer, as far as they are whole. An attribute takes a byte of fuel at least.
  unfoldable pub read_attrs : ℕ → Bytes → List Attr
  read_attrs zero bs = []
  read_attrs (suc fuel) bs = then_attr (λ rest. read_attrs fuel rest) (read_attr bs)

  -- The writes in a row.
  abbrev pub put_attrs : Bytes → List Attr → Bytes
  put_attrs buf [] = buf
  put_attrs buf (a ∷ attrs) = put_attrs (put_attr o buf a.typ a.value) attrs

-- The attribute's length and type fit in 16 bits.
pub record IsAttr (a : Attr) : Type 0 where
  pub size_u16 : 4 + length a.value < 2 ^ 16
  pub type_u16 : a.typ < 2 ^ 16

put_attr_front :
    (o : ByteOrder) (buf : Bytes) (t : ℕ) (v : Bytes)
    → put_attr o buf t v ≡ buf ++ put_attr o [] t v
unfolding put_attr
put_attr_front o buf t v = refl

align4-ge : (n : ℕ) → n ≤ align4 n
unfolding align4
align4-ge n = omega arith

sum_aligned : (a n : ℕ) → align4 a ≡ a → align4 (a + align4 n) ≡ a + align4 n
unfolding align4
sum_aligned a n h = omega arith

pub align4-align4 : (n : ℕ) → align4 (align4 n) ≡ align4 n
unfolding align4
align4-align4 n = omega arith

attr_size : (o : ByteOrder) (t : ℕ) (v : Bytes) → length (put_attr o [] t v) ≡ align4 (4 + length v)
unfolding put_attr
attr_size o t v =
    let n = 4 + length v in
    let nul : ℕ = 0 in
    let pad : Bytes = replicate (align4 n - n) nul in
    omega (
      arith,
      length-append (put_ne o 2 n) (put_ne o 2 t ++ (v ++ pad)),
      length-append (put_ne o 2 t) (v ++ pad),
      length-append v pad,
      length-put_ne o 2 n,
      length-put_ne o 2 t,
      length-replicate (align4 n - n) nul,
      align4-ge n,
    )

size_field :
    (o : ByteOrder) (t : ℕ) (v rest : Bytes)
    → take 2 (put_attr o [] t v ++ rest) ≡ put_ne o 2 (4 + length v)
unfolding put_attr put_ne put_le put_be
size_field little t v rest = refl
size_field big t v rest = refl

typ_field :
    (o : ByteOrder) (t : ℕ) (v rest : Bytes)
    → take 2 (drop 2 (put_attr o [] t v ++ rest)) ≡ put_ne o 2 t
unfolding put_attr put_ne put_le put_be
typ_field little t v rest = refl
typ_field big t v rest = refl

front_of_value : (n : ℕ) (v pad rest : Bytes) → n ≡ length v → take n ((v ++ pad) ++ rest) ≡ v
front_of_value n v pad rest e = rw (append_assoc v pad rest) (take-append n v (pad ++ rest) (sym e))

value_field :
    (o : ByteOrder) (t n : ℕ) (v rest : Bytes)
    → n ≡ length v
    → drop 4 (take (suc (suc (suc (suc n)))) (put_attr o [] t v ++ rest)) ≡ v
unfolding put_attr put_ne put_le put_be
value_field little t n v rest e = front_of_value n v _ rest e
value_field big t n v rest e = front_of_value n v _ rest e

module _ (o : ByteOrder) (a : Attr) (h : IsAttr a) (rest : Bytes) where
  abbrev written : Bytes
  written = put_attr o [] a.typ a.value ++ rest

  read_attr-put_attr : read_attr o written ≡ some (a, rest)
  unfolding read_attr
  read_attr-put_attr =
      let n = 4 + length a.value in
      let size : length written ≡ align4 n + length rest =
        length-append (put_attr o [] a.typ a.value) rest
        ∙ ap (λ (t : ℕ). t + length rest) (attr_size o a.typ a.value) in
      let four : n ≡ suc (suc (suc (suc (length a.value)))) = omega arith in
      let value : drop 4 (take n written) ≡ a.value =
        ap (λ (t : ℕ). drop 4 (take t written)) four ∙ value_field o a.typ _ a.value rest refl in
      let next : drop (align4 n) written ≡ rest =
        drop-append _ (put_attr o [] a.typ a.value) rest (attr_size o a.typ a.value) in
      rw
        (
          ap (ne o) (size_field o a.typ a.value rest) ∙ ne-put_ne_fits o 2 n h.size_u16,
          ap (ne o) (typ_field o a.typ a.value rest) ∙ ne-put_ne_fits o 2 a.typ h.type_u16,
        )
        (rw
          (
            of_ge (length written) 4 (omega (arith, size, align4-ge n)),
            of_ge n 4 (omega arith),
            of_ge (length written) n (omega (arith, size, align4-ge n)),
            value,
            next,
          )
          refl)

abbrev attrs_bytes : ByteOrder → List Attr → Bytes
attrs_bytes o [] = []
attrs_bytes o (a ∷ attrs) = put_attr o [] a.typ a.value ++ attrs_bytes o attrs

put_attrs_lem :
    (o : ByteOrder) (buf : Bytes) (attrs : List Attr)
    → put_attrs o buf attrs ≡ buf ++ attrs_bytes o attrs
put_attrs_lem o buf [] = sym (append-nil buf)
put_attrs_lem o buf (a ∷ attrs) =
    put_attrs_lem o (put_attr o buf a.typ a.value) attrs
    ∙ ap (λ (b : Bytes). b ++ attrs_bytes o attrs) (put_attr_front o buf a.typ a.value)
    ∙ append_assoc buf (put_attr o [] a.typ a.value) (attrs_bytes o attrs)

read_attrs-attrs_bytes :
    (o : ByteOrder) (attrs : List Attr) (fuel : ℕ)
    → All IsAttr attrs
    → length attrs ≤ fuel
    → read_attrs o fuel (attrs_bytes o attrs) ≡ attrs
unfolding read_attrs
read_attrs-attrs_bytes o [] zero h le = refl
read_attrs-attrs_bytes o [] (suc fuel) h le = unfold read_attr in refl
read_attrs-attrs_bytes o (a ∷ attrs) zero h le = absurd (omega arith)
read_attrs-attrs_bytes o (a ∷ attrs) (suc fuel) h le =
    rw (read_attr-put_attr o a h.0 (attrs_bytes o attrs))
      (ap (◌∷◌ a) (read_attrs-attrs_bytes o attrs fuel h.1 (omega arith)))

-- What `putAttr` writes in a row to an empty buffer is read as it was written.
pub read_attrs-put_attrs :
    (o : ByteOrder) (attrs : List Attr) (fuel : ℕ)
    → All IsAttr attrs
    → length attrs ≤ fuel
    → read_attrs o fuel (put_attrs o [] attrs) ≡ attrs
read_attrs-put_attrs o attrs fuel h le =
    ap (read_attrs o fuel) (put_attrs_lem o [] attrs) ∙ read_attrs-attrs_bytes o attrs fuel h le

pub length-put_attr :
    (o : ByteOrder) (buf : Bytes) (t : ℕ) (v : Bytes)
    → length (put_attr o buf t v) ≡ length buf + align4 (4 + length v)
length-put_attr o buf t v =
    ap length (put_attr_front o buf t v)
    ∙ length-append buf (put_attr o [] t v)
    ∙ ap (λ (k : ℕ). length buf + k) (attr_size o t v)

-- Whatever is written, each attribute ends at a multiple of 4.
pub put_attr-IsAligned :
    (o : ByteOrder) (buf : Bytes) (t : ℕ) (v : Bytes)
    → IsAligned buf
    → IsAligned (put_attr o buf t v)
put_attr-IsAligned o buf t v h =
    rw (length-put_attr o buf t v) (sum_aligned (length buf) (4 + length v) h)
