-- ===== src/Net.antt =====
-- What the code uses of Go's packages net and net/netip: addresses, and their equality as map keys.
-- A CIDR text is taken as what `net.ParseCIDR` reads in it, so text itself is not modelled.
use elevpn.Prelude.{
  ℕ, ◌-◌, ◌*◌, ◌/◌, ◌^◌, ◌≡◌, ◌↔◌, refl, ap, Bool, true, false, ◌&&◌, ◌==◌, if◌then◌else◌, Option,
  none, some, [], ◌∷◌, ◌++◌, length, take, drop, replicate, list_beq, list_beq_iff, Eq, external,
  Result, ok, err, ltb,
}
use elevpn.Bytes.{Bytes, put_be}
use elevpn.Protocol.Payload.{Addr, invalid, v4, v6}

abbrev pub addr_beq : Addr → Addr → Bool
addr_beq invalid invalid = true
addr_beq (v4 a) (v4 b) = list_beq a b
addr_beq (v6 a) (v6 b) = list_beq a b
addr_beq _ _ = false

pub addr_beq_iff : (a b : Addr) → (addr_beq a b ≡ true) ↔ (a ≡ b)
addr_beq_iff invalid invalid = (λ _. refl, λ _. refl)
addr_beq_iff (v4 a) (v4 b) =
    (λ h. ap (λ (x : Bytes). v4 x) ((list_beq_iff a b).0 h), λ e. (list_beq_iff a b).1 (cc))
addr_beq_iff (v6 a) (v6 b) =
    (λ h. ap (λ (x : Bytes). v6 x) ((list_beq_iff a b).0 h), λ e. (list_beq_iff a b).1 (cc))
addr_beq_iff _ _ = (λ h. cc, λ e. cc)

instance abbrev pub addr_eq : Eq Addr
addr_eq = record { beq = addr_beq; beq_iff = addr_beq_iff }

-- `net.UDPAddr`. The IP has 4 or 16 bytes.
pub record UdpAddr : Type 0 where
  pub ip : Bytes
  pub port : ℕ

-- The first 12 bytes of an IPv4 address in its 16-byte form.
abbrev pub v4_in_v6_prefix : Bytes
v4_in_v6_prefix = replicate 10 0 ++ (255 ∷ 255 ∷ [])

-- `IP.To4`, with `none` for nil.
abbrev pub to4 : Bytes → Option Bytes
to4 ip =
    if length ip == 4
    then some ip
    else if length ip == 16 && list_beq (take 12 ip) v4_in_v6_prefix
    then some (drop 12 ip)
    else none

-- `IP.Equal`: an IPv4 address equals its 16-byte form.
abbrev pub ip_equal : Bytes → Bytes → Bool
ip_equal a b =
    if length a == length b
    then list_beq a b
    else if length a == 4 && length b == 16
    then list_beq (take 12 b) v4_in_v6_prefix && list_beq a (drop 12 b)
    else if length a == 16 && length b == 4
    then list_beq (take 12 a) v4_in_v6_prefix && list_beq (drop 12 a) b
    else false

-- What a CIDR text says: an IPv4 or IPv6 address of 32 or 128 bits with a prefix length, or no CIDR.
pub data CidrText : Type 0 where
  malformed : CidrText
  cidr4 cidr6 : ℕ → ℕ → CidrText

-- `net.IPNet`, with the two results of `Mask.Size`.
pub record IpNet : Type 0 where
  pub ip : Bytes
  pub ones : ℕ
  pub bits : ℕ

-- The address with the bits behind the prefix cleared.
abbrev pub masked : ℕ → ℕ → ℕ → ℕ
masked bits address prefix = address / 2 ^ (bits - prefix) * 2 ^ (bits - prefix)

-- The network of `net.ParseCIDR`, which refuses a prefix that is too long.
abbrev pub parse_cidr : CidrText → Result IpNet
parse_cidr malformed = err external
parse_cidr (cidr4 address prefix) =
    if ltb 32 prefix
    then err external
    else ok (record { ip = put_be 4 (masked 32 address prefix); ones = prefix; bits = 32 })
parse_cidr (cidr6 address prefix) =
    if ltb 128 prefix
    then err external
    else ok (record { ip = put_be 16 (masked 128 address prefix); ones = prefix; bits = 128 })
