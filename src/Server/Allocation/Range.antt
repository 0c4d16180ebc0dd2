-- ===== src/Server/Allocation/Range.antt =====
-- internal/server/handler.go, `allocateTunnelIP`: the addresses that it gives.
use native.Mathlib.Nat.{
  add-zero, add-suc, mul-one, pow-suc, one-le-pow, mul-le-mul_right, mul_assoc, div-lt_iff_lt-mul,
  add-mul,
}
use elevpn.Prelude.{
  ℕ_discrete, dec_lt, ℕ, zero, suc, ◌+◌, ◌-◌, ◌*◌, ◌/◌, ◌%◌, ◌^◌, ◌≤◌, ◌<◌, ◌≡◌, ◌↔◌, ◌⊎◌, inl, inr,
  refl, sym, ap, ◌∙◌, true, false, ltb, some, arith, fault, invalid_ip_range, ok, err, err-ne-ok,
  ok-injective,
}
use elevpn.Bytes.{put_be, be, length-put_be, be-put_be_fits}
use elevpn.Net.{cidr4, masked, to4, parse_cidr}
use elevpn.Protocol.Payload.{Addr, v4, as4}
use elevpn.Server.Allocation.{valid_ip_range, allocate_tunnel_ip}

pow_split : (k h : ℕ) → 2 ^ (k + h) ≡ 2 ^ k * 2 ^ h
pow_split k zero = ap (λ (t : ℕ). 2 ^ t) (add-zero k) ∙ sym (mul-one (2 ^ k))
pow_split k (suc h) =
    ap (λ (t : ℕ). 2 ^ t) (add-suc k h)
    ∙ pow-suc 2 (k + h)
    ∙ ap (λ (t : ℕ). t * 2) (pow_split k h)
    ∙ mul_assoc (2 ^ k) (2 ^ h) 2
    ∙ ap (λ (t : ℕ). 2 ^ k * t) (sym (pow-suc 2 h))

-- A block of `2 ^ h` addresses ends within the address space.
block_end : (k h a : ℕ) → a < 2 ^ (k + h) → a / 2 ^ h * 2 ^ h + 2 ^ h ≤ 2 ^ (k + h)
block_end k h a lt =
    let pos : 0 < 2 ^ h = one-le-pow h 2 (omega arith) in
    let q : a / 2 ^ h < 2 ^ k = (div-lt_iff_lt-mul pos).1 (omega (arith, lt, pow_split k h)) in
    let up : suc (a / 2 ^ h) * 2 ^ h ≤ 2 ^ k * 2 ^ h = mul-le-mul_right (2 ^ h) q in
    omega (arith, up, pow_split k h, add-mul (a / 2 ^ h) 1 (2 ^ h))

-- The network of an IPv4 CIDR: its base address and its size.
abbrev pub base : ℕ → ℕ → ℕ
base address prefix = masked 32 address prefix

abbrev pub size : ℕ → ℕ
size prefix = 2 ^ (32 - prefix)

pub network_fits :
    (address prefix : ℕ)
    → address < 2 ^ 32
    → prefix ≤ 32
    → base address prefix + size prefix ≤ 2 ^ 32
network_fits address prefix lt le =
    let e : 32 ≡ prefix + (32 - prefix) = omega arith in
    let whole : 2 ^ 32 ≡ 2 ^ (prefix + (32 - prefix)) = ap (λ (t : ℕ). 2 ^ t) e in
    omega (arith, block_end prefix (32 - prefix) address (omega (arith, lt, whole)), whole)

pub size_four : (prefix : ℕ) → prefix ≤ 30 → 4 ≤ size prefix
size_four prefix le =
    let e : 32 - prefix ≡ suc (suc (30 - prefix)) = omega arith in
    let two = pow-suc 2 (suc (30 - prefix)) in
    let one = pow-suc 2 (30 - prefix) in
    let pos = one-le-pow (30 - prefix) 2 (omega arith) in rw e (omega (arith, two, one, pos))

-- The ids that have an address.
abbrev pub HasAddress : ℕ → ℕ → Type 0
HasAddress prefix id = (0 < id) × (id ≤ size prefix - 3)

valid_ip_range-true :
    (id prefix : ℕ) → prefix ≤ 30 → HasAddress prefix id → valid_ip_range id prefix ≡ true
unfolding valid_ip_range
valid_ip_range-true id prefix le h = ground (arith, h.0, h.1)

valid_ip_range-false :
    (id prefix : ℕ) → (id ≡ 0) ⊎ (size prefix - 3 < id) → valid_ip_range id prefix ≡ false
unfolding valid_ip_range
valid_ip_range-false id prefix (inl e) = rw e refl
valid_ip_range-false id prefix (inr lt) = ground arith

pub to4-put_be : (v : ℕ) → to4 (put_be 4 v) ≡ some (put_be 4 v)
to4-put_be v = rw (length-put_be 4 v) refl

pub parse_cidr_four :
    (address prefix : ℕ)
    → prefix ≤ 30
    → parse_cidr (cidr4 address prefix)
      ≡ ok (record { ip = put_be 4 (base address prefix); ones = prefix; bits = 32 })
parse_cidr_four address prefix le = rw (small (32) prefix (omega arith)) refl
  where
    small : (a b : ℕ) → b ≤ a → ltb a b ≡ false
    small a b h = ground arith

module _ (address prefix : ℕ) (fits : address < 2 ^ 32) (le : prefix ≤ 30) where
  pub be-base : be (put_be 4 (base address prefix)) ≡ base address prefix
  be-base =
      be-put_be_fits 4 (base address prefix)
        (omega (arith, network_fits address prefix fits (omega arith), size_four prefix le))

  no_wrap :
      (id : ℕ)
      → HasAddress prefix id
      → ((base address prefix + 1) % 2 ^ 32 + id % 2 ^ 32) % 2 ^ 32 ≡ base address prefix + 1 + id
  no_wrap id h =
      omega (arith, network_fits address prefix fits (omega arith), size_four prefix le, h.0, h.1)

  -- A peer with such an id gets the address that lies its id behind the server's address, and every
  -- other id is refused.
  allocated :
      (id : ℕ)
      → HasAddress prefix id
      → allocate_tunnel_ip (cidr4 address prefix) id
        ≡ ok (v4 (put_be 4 (base address prefix + 1 + id)))
  unfolding allocate_tunnel_ip
  allocated id h =
      rw
        (
          parse_cidr_four address prefix le,
          to4-put_be (base address prefix),
          valid_ip_range-true id prefix le h,
          be-base,
          no_wrap id h,
        )
        refl

  pub refused :
      (id : ℕ)
      → (id ≡ 0) ⊎ (size prefix - 3 < id)
      → allocate_tunnel_ip (cidr4 address prefix) id ≡ err (fault invalid_ip_range)
  unfolding allocate_tunnel_ip
  refused id h =
      rw
        (
          parse_cidr_four address prefix le,
          to4-put_be (base address prefix),
          valid_ip_range-false id prefix h,
        )
        refl

  -- In an IPv4 network with a prefix of 30 at most, `allocateTunnelIP` gives an address exactly for the ids from
  -- 1 to the size of the network less 3, and it is the one that lies the id behind the server's address,
  -- which is the first behind the base.
  pub allocate_tunnel_ip-ok_iff :
      (id : ℕ) (ip : Addr)
      → (allocate_tunnel_ip (cidr4 address prefix) id ≡ ok ip)
        ↔ ((0 < id) × (id ≤ size prefix - 3) × (ip ≡ v4 (put_be 4 (base address prefix + 1 + id))))
  allocate_tunnel_ip-ok_iff id ip = (
    (λ h. elim (has_or_not id) [
      | inl r ↦ absurd (err-ne-ok (sym (refused id r) ∙ h))
      | inr (pos, small) ↦ (pos, small, ok-injective (sym h ∙ allocated id (pos, small)))
    ]),
    λ (pos, small, e). allocated id (pos, small) ∙ ap (λ (a : Addr). ok a) (sym e),
  )
    where
      has_or_not : (i : ℕ) → ((i ≡ 0) ⊎ (size prefix - 3 < i)) ⊎ HasAddress prefix i
      has_or_not i = elim (ℕ_discrete i 0) [
        | yes e ↦ inl (inl e)
        | no ne ↦ elim (dec_lt (size prefix - 3) i) [
          | yes lt ↦ inl (inr lt)
          | no ge ↦ inr (omega (arith, ne), omega (arith, ge))
        ]
      ]

  -- In such a network, an address that `allocateTunnelIP` gives lies behind the server's address and before the
  -- broadcast address, which is in the address space.
  pub allocate_tunnel_ip_inside :
      (id : ℕ) (ip : Addr)
      → allocate_tunnel_ip (cidr4 address prefix) id ≡ ok ip
      → (n : ℕ) × (ip ≡ v4 (put_be 4 n))
        × (base address prefix + 1 < n)
        × (n + 1 < base address prefix + size prefix)
        × (base address prefix + size prefix ≤ 2 ^ 32)
  allocate_tunnel_ip_inside id ip h =
      let (pos, small, e) = (allocate_tunnel_ip-ok_iff id ip).0 h in
      let big = size_four prefix le in
      (
        base address prefix + 1 + id,
        e,
        omega (arith, pos),
        omega (arith, small, big),
        network_fits address prefix fits (omega arith),
      )

  -- In such a network, two ids never get one address.
  pub allocate_tunnel_ip_injective :
      (i j : ℕ) (ip : Addr)
      → allocate_tunnel_ip (cidr4 address prefix) i ≡ ok ip
      → allocate_tunnel_ip (cidr4 address prefix) j ≡ ok ip
      → i ≡ j
  allocate_tunnel_ip_injective i j ip h k =
      let (pos_i, small_i, e_i) = (allocate_tunnel_ip-ok_iff i ip).0 h in
      let (pos_j, small_j, e_j) = (allocate_tunnel_ip-ok_iff j ip).0 k in
      let end = network_fits address prefix fits (omega arith) in
      let big = size_four prefix le in
      let same = ap (λ (a : Addr). be (as4 a)) (sym e_i ∙ e_j) in
      omega (
        arith,
        same,
        be-put_be_fits 4 (base address prefix + 1 + i) (omega (arith, small_i, end, big)),
        be-put_be_fits 4 (base address prefix + 1 + j) (omega (arith, small_j, end, big)),
      )
