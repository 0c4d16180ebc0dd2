-- ===== src/Tun/Device.antt =====
-- internal/tun/tun.go: `New`, `Apply` and `Cleanup`.
pub mod Opened
pub mod Cleaned
use elevpn.Prelude.{
  ℕ, ◌==◌, if◌then◌else◌, Option, none, some, List, [], ◌∷◌, ◌++◌, length, bit_or, Error, fault,
  tun_name_empty, ipv4_only, tun_nil, Result, ok, err, hiding, wrapping, reject,
}
use elevpn.Bytes.{Bytes}
use elevpn.Net.{CidrText, to4, parse_cidr}
use elevpn.Vpn.Route.{cidr_ip}
use elevpn.Vpn.Masquerade.{mask_bytes}
use elevpn.Tun.Host.{
  Ioctl, tunsetiff, siocsifmtu, siocsifflags, siocsifaddr, siocsifnetmask, siocgifflags, Purpose,
  for_mtu, for_cidr, for_flags, Os, Device, Method, ◌>>=◌, ◌>>◌, answer, close, with_socket, asked,
}

-- The fields that `New` sets.
pub record Tun : Type 0 where
  pub name : Bytes
  pub cidr : CidrText
  pub mtu : ℕ

abbrev pub need_tun_ip4 : Option Bytes → Result Bytes
need_tun_ip4 none = err (fault ipv4_only)
need_tun_ip4 (some a) = ok a

abbrev pub new_checks : Bytes → CidrText → Result (Unit {0})
new_checks name cidr = elim (parse_cidr cidr) [
  | err e ↦ err (Error.hide e)
  | ok _ ↦ elim (to4 (cidr_ip cidr)) [ none ↦ err (fault ipv4_only) | some _ ↦ ok tt ]
]

-- `New`
unfoldable pub new_tun : Bytes → CidrText → ℕ → Result Tun
new_tun name cidr mtu =
    if length name == 0 then err (fault tun_name_empty) else elim (new_checks name cidr) [
      | err e ↦ err e
      | ok _ ↦ ok (record { name = name; cidr = cidr; mtu = mtu })
    ]

-- IFF_TUN | IFF_NO_PI
abbrev pub iff_tun_no_pi : ℕ
iff_tun_no_pi = 0x1001

abbrev pub iff_up : ℕ
iff_up = 1

abbrev pub file_check : Option ℕ → Result (Unit {0})
file_check none = err (fault tun_nil)
file_check (some _) = ok tt

module _ (os : Os) (tun : Tun) where
  -- After the ioctl of `create`.
  unfoldable pub set_file : ℕ → Device → Result ℕ → Device × Result (Unit {0})
  set_file fd t (err e) = (close fd t, err (Error.hide e))
  set_file fd t (ok _) = (record t { actual_name = os.actual_name; f = some fd }, ok tt)

  -- What follows `unix.Open`: each error closes the descriptor.
  unfoldable pub set_interface : ℕ → Device → Result (Unit {0}) → Device × Result (Unit {0})
  set_interface fd t (err e) = (close fd t, err (Error.hide e))
  set_interface fd t (ok _) =
      let (t', r) = asked os (tunsetiff tun.name iff_tun_no_pi) t in set_file fd t' r

  unfoldable pub opened_tun : Device → Result ℕ → Device × Result (Unit {0})
  opened_tun t (err e) = (t, err (Error.hide e))
  opened_tun t (ok fd) =
      set_interface fd (record t { opened = fd ∷ t.opened }) (os.new_ifreq tun.name)

  unfoldable pub create : Method (Unit {0})
  create t = opened_tun t os.open_tun

  -- `if t == nil || t.f == nil`
  abbrev pub need_file : Method (Unit {0})
  need_file t = (t, file_check t.f)

  -- An ioctl on the interface, and the wrapped errors of `NewIfreq` and of the ioctl.
  unfoldable pub interface_ioctl : Ioctl → Method ℕ
  interface_ioctl request = do
    answer (wrapping (os.new_ifreq tun.name))
    (λ t. let (t', r) = asked os request t in (t', wrapping r))

  unfoldable pub set_mtu : Method (Unit {0})
  set_mtu = do
    need_file
    with_socket (os.socket for_mtu)
        (λ sock. do _ ← interface_ioctl (siocsifmtu tun.name tun.mtu); answer (ok tt))

  -- An address in the `Ifreq`, which is refused if it has not 4 bytes.
  unfoldable pub address_ioctl : Bytes → Ioctl → Method (Unit {0})
  address_ioctl address request = do
    answer (wrapping (os.new_ifreq tun.name))
    answer (wrapping (os.set_inet4_addr address))
    _ ← (λ t. let (t', r) = asked os request t in (t', wrapping r))
    answer (ok tt)

  unfoldable pub set_ipv4_cidr : Method (Unit {0})
  set_ipv4_cidr = do
    need_file
    ipnet ← answer (wrapping (parse_cidr tun.cidr))
    ip4 ← answer (need_tun_ip4 (to4 (cidr_ip tun.cidr)))
    mask4 ← answer (need_tun_ip4 (to4 (mask_bytes ipnet)))
    with_socket (os.socket for_cidr) (λ sock. do
      address_ioctl ip4 (siocsifaddr tun.name ip4)
      address_ioctl mask4 (siocsifnetmask tun.name mask4))

  -- The flags are those of the interface with IFF_UP added.
  unfoldable pub up : Method (Unit {0})
  up = do
    need_file
    with_socket (os.socket for_flags) (λ sock. do
      flags ← interface_ioctl (siocgifflags tun.name)
      _ ← (λ t.
          let (t', r) = asked os (siocsifflags tun.name (bit_or flags iff_up)) t in
          (t', wrapping r))
      answer (ok tt))

  unfoldable pub tun_apply : Method (Unit {0})
  tun_apply = do create; set_mtu; set_ipv4_cidr; up

  abbrev pub after_close : ℕ → Device → Result (Unit {0}) → Device × Result (Unit {0})
  after_close fd t (err e) = (t, err e)
  after_close fd t (ok _) = (record (close fd t) { f = none }, ok tt)

  abbrev pub close_file : Device → Option ℕ → Device × Result (Unit {0})
  close_file t none = (t, ok tt)
  close_file t (some fd) = after_close fd t (os.close_file fd)

  unfoldable pub tun_cleanup : Method (Unit {0})
  tun_cleanup t = close_file t t.f
