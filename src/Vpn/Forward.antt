-- ===== src/Vpn/Forward.antt =====
-- internal/vpn/forward.go: IP forwarding, which is a file of the kernel.
use elevpn.Prelude.{Option, none, some, [], ◌∷◌, Result, ok, err}
use elevpn.Bytes.{Bytes}
use elevpn.Vpn.Manager.{Component}

-- `os.ReadFile` and `os.WriteFile` at /proc/sys/net/ipv4/ip_forward.
pub record ForwardFile (K : Type 0) : Type 0 where
  pub read_file : K → Result Bytes
  pub write_file : Bytes → K → K × Result (Unit {0})

module _ {K : Type 0} (file : ForwardFile K) where
  -- The field is `previousValue`.
  abbrev pub return_own :
      Option Bytes → K × Result (Unit {0}) → K × Option Bytes × Result (Unit {0})
  return_own previous (k, r) = (k, previous, r)

  unfoldable pub after_read : Option Bytes → K → Result Bytes → K × Option Bytes × Result (Unit {0})
  after_read previous k (err e) = (k, previous, err e)
  after_read previous k (ok value) = return_own (some value) (file.write_file (b'1' ∷ 10 ∷ []) k)

  unfoldable pub forward_apply : Option Bytes → K → K × Option Bytes × Result (Unit {0})
  forward_apply previous k = after_read previous k (file.read_file k)

  unfoldable pub forward_cleanup : Option Bytes → K → K × Option Bytes × Result (Unit {0})
  forward_cleanup none k = (k, none, ok tt)
  forward_cleanup (some value) k = return_own (some value) (file.write_file value k)

  -- `NewIPForward`
  abbrev pub ip_forward : Component K
  ip_forward = record {
    Own = Option Bytes;
    own = none;
    apply = forward_apply;
    cleanup = forward_cleanup;
  }
