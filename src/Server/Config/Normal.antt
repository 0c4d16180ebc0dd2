-- ===== src/Server/Config/Normal.antt =====
-- internal/server/server.go, `normalize`: which configurations are accepted, and what they become.
use elevpn.Prelude.{
  ℕ, ◌+◌, ◌%◌, ◌^◌, ◌≤◌, ◌<◌, ◌≡◌, ◌≢◌, ◌↔◌, refl, sym, ap, ◌∙◌, not, ltb, ◌==◌, length, arith,
  fault, ok, reject, >>=-eq-ok, err-ne-ok, ok-injective, reject-eq-ok, ge_of, of_ge, ne_of, of_ne,
  eq_of, Bool-cases, inl, inr, not_ipv4_network, network_too_small, psk_empty,
}
use elevpn.Net.{CidrText, malformed, cidr4, cidr6, parse_cidr, IpNet}
use elevpn.Server.Allocation.Range.{
  base, network_fits, size_four, to4-put_be, parse_cidr_four, be-base,
}
use elevpn.Server.Config.{ServerConfig, normalize}

-- The address of a CIDR has 32 or 128 bits.
abbrev pub IsCidr : CidrText → Type 0
IsCidr malformed = Unit
IsCidr (cidr4 address prefix) = address < 2 ^ 32
IsCidr (cidr6 address prefix) = address < 2 ^ 128

abbrev pub normal_config : ServerConfig → ℕ → ℕ → ServerConfig
normal_config s address prefix = record s {
  tun_addr_cidr = cidr4 (base address prefix + 1) prefix;
  auth_key = s.psk;
}

pub normalize_four :
    (s : ServerConfig) (address prefix : ℕ)
    → s.vpn_network_cidr ≡ cidr4 address prefix
    → address < 2 ^ 32
    → prefix ≤ 30
    → 0 < length s.psk
    → normalize s ≡ ok (normal_config s address prefix)
unfolding normalize
normalize_four s address prefix e fits le key =
    rw
      (
        e,
        parse_cidr_four address prefix le,
        of_ge 30 prefix le,
        of_ne (length s.psk) 0 (omega (arith, key)),
        to4-put_be (base address prefix),
        be-base address prefix fits le,
        no_wrap,
      )
      refl
  where
    no_wrap : (base address prefix + 1) % 2 ^ 32 ≡ base address prefix + 1
    no_wrap =
        omega (arith, network_fits address prefix fits (omega (arith, le)), size_four prefix le)

-- The checks behind `ParseCIDR`.
normalize-eq-ok :
    (s t : ServerConfig)
    → normalize s ≡ ok t
    → (n : IpNet) × (parse_cidr s.vpn_network_cidr ≡ ok n)
      × (n.bits ≡ 32)
      × (n.ones ≤ 30)
      × (0 < length s.psk)
unfolding normalize
normalize-eq-ok s t h =
    let (n, a, h₁) = >>=-eq-ok (parse_cidr s.vpn_network_cidr) _ h in
    let (_, b, h₂) = >>=-eq-ok (reject (not (n.bits == 32)) (fault not_ipv4_network)) _ h₁ in
    let (_, c, h₃) = >>=-eq-ok (reject (ltb 30 n.ones) (fault network_too_small)) _ h₂ in
    let (_, d, h₄) = >>=-eq-ok (reject (length s.psk == 0) (fault psk_empty)) _ h₃ in
    let full : length s.psk ≢ 0 = ne_of (length s.psk) 0 (reject-eq-ok _ _ d) in
    (
      n,
      a,
      eq_of n.bits 32 (reject-eq-ok _ _ b),
      ge_of 30 n.ones (reject-eq-ok _ _ c),
      omega (arith, full),
    )

four_of :
    (c : CidrText) (n : IpNet)
    → parse_cidr c ≡ ok n
    → n.bits ≡ 32
    → (address : ℕ) × (prefix : ℕ) × (c ≡ cidr4 address prefix) × (n.ones ≡ prefix)
four_of malformed n h b = absurd (err-ne-ok h)
four_of (cidr4 address prefix) n h b = elim (Bool-cases (ltb 32 prefix)) [
  | inl t ↦ absurd (err-ne-ok (rw t at h))
  | inr f ↦ (address, prefix, refl, ap (λ (m : IpNet). m.ones) (sym (ok-injective (rw f at h))))
]
four_of (cidr6 address prefix) n h b = elim (Bool-cases (ltb 128 prefix)) [
  | inl t ↦ absurd (err-ne-ok (rw t at h))
  | inr f ↦ absurd (wide (ap (λ (m : IpNet). m.bits) (ok-injective (rw f at h)) ∙ b))
]
  where
    wide : ◌≢◌ {A = ℕ} 128 32
    wide e = omega arith

-- Of the configurations whose CIDR has an address of 32 or 128 bits, `normalize` accepts one
-- exactly when its network is an IPv4 CIDR with a prefix of 30 at
-- most and the pre-shared key is not empty. It then keeps the network and the key, makes the bytes of
-- the key the authentication key, and gives the TUN device the first address behind the network's base.
pub normalize-ok_iff :
    (s t : ServerConfig)
    → IsCidr s.vpn_network_cidr
    → (normalize s ≡ ok t) ↔ (
        (address : ℕ) × (prefix : ℕ) × (s.vpn_network_cidr ≡ cidr4 address prefix)
        × (prefix ≤ 30)
        × (0 < length s.psk)
        × (t ≡ normal_config s address prefix))
normalize-ok_iff s t cidr = (
  (λ h.
      let (n, a, b, c, d) = normalize-eq-ok s t h in
      let (address, prefix, e, o) = four_of s.vpn_network_cidr n a b in
      let le : prefix ≤ 30 = omega (arith, o, c) in
      (
        address,
        prefix,
        e,
        le,
        d,
        ok-injective (sym h ∙ normalize_four s address prefix e (rw e at cidr) le d),
      )),
  λ (address, prefix, e, le, key, same).
      normalize_four s address prefix e (rw e at cidr) le key
      ∙ ap (λ (c : ServerConfig). ok c) (sym same),
)
