-- ===== src/Vpn/Masquerade.antt =====
-- internal/vpn/netfilter.go: the masquerade rule of the server.
use elevpn.Prelude.{
  ◌==◌, leb, if◌then◌else◌, Option, some, length, fault, wrapping, reject, table_name_empty,
  chain_name_empty, oif_name_empty, oif_name_long, ipv4_only, Result, ok, err, ◌>>=◌, ◌>>◌, ◌-◌,
  ◌^◌,
}
use elevpn.Bytes.{Bytes, put_be}
use elevpn.Net.{CidrText, IpNet, to4, parse_cidr}
use elevpn.Netlink.Nftable.{NftMasqConfig}
use elevpn.Vpn.Manager.{Component}

pub record MasqueradeSpec : Type 0 where
  pub table_name : Bytes
  pub chain_name : Bytes
  pub src_cidr : CidrText
  pub out_interface : Bytes

-- `net.IP(ipnet.Mask)`: ones, and zeros behind them, in 4 or 16 bytes.
abbrev pub mask_bytes : IpNet → Bytes
mask_bytes n =
    let mask = 2 ^ n.bits - 2 ^ (n.bits - n.ones) in
    if n.bits == 32 then put_be 4 mask else put_be 16 mask

abbrev pub both_ip4 : Option Bytes → Option Bytes → Result (Bytes × Bytes)
both_ip4 (some a) (some b) = ok (a, b)
both_ip4 _ _ = err (fault ipv4_only)

-- The checks of `Apply`, and what it asks netlink for.
unfoldable pub masq_config : MasqueradeSpec → Result NftMasqConfig
masq_config spec = do
  reject (length spec.table_name == 0) (fault table_name_empty)
  reject (length spec.chain_name == 0) (fault chain_name_empty)
  reject (length spec.out_interface == 0) (fault oif_name_empty)
  reject (leb 16 (length spec.out_interface)) (fault oif_name_long)
  ipnet ← wrapping (parse_cidr spec.src_cidr)
  ips ← both_ip4 (to4 ipnet.ip) (to4 (mask_bytes ipnet))
  ok (record {
    table_name = spec.table_name;
    chain_name = spec.chain_name;
    src_ip = ips.0;
    src_mask = ips.1;
    out_interface = spec.out_interface;
  })

-- `netlink.ApplyMasquerade` and `netlink.DeleteMasqueradeTable`, on a host of type `K`.
pub record MasqueradeOps (K : Type 0) : Type 0 where
  pub apply_masquerade : NftMasqConfig → K → K × Result (Unit {0})
  pub delete_masquerade_table : Bytes → K → K × Result (Unit {0})

module _ {K : Type 0} (ops : MasqueradeOps K) (spec : MasqueradeSpec) where
  abbrev pub no_own : K × Result (Unit {0}) → K × Unit {0} × Result (Unit {0})
  no_own (k, r) = (k, tt, r)

  abbrev pub apply_config : K → Result NftMasqConfig → K × Result (Unit {0})
  apply_config k (err e) = (k, err e)
  apply_config k (ok cfg) = ops.apply_masquerade cfg k

  unfoldable pub masquerade_apply : Unit {0} → K → K × Unit {0} × Result (Unit {0})
  masquerade_apply own k = no_own (apply_config k (masq_config spec))

  unfoldable pub masquerade_cleanup : Unit {0} → K → K × Unit {0} × Result (Unit {0})
  masquerade_cleanup own k = no_own (ops.delete_masquerade_table spec.table_name k)

  abbrev pub masquerade : Component K
  masquerade = record {
    Own = Unit {0};
    own = tt;
    apply = masquerade_apply;
    cleanup = masquerade_cleanup;
  }
