-- ===== src/Tun/Component.antt =====
-- internal/tun/tun.go as a component of internal/vpn/vpn.go. Its descriptors are its own; the rest of the host, with
-- the routes, IP forwarding and the tables, is not what it works on.
use elevpn.Prelude.{none, [], Result}
use elevpn.Tun.Host.{Device, Os}
use elevpn.Tun.Device.{Tun, tun_apply, tun_cleanup}
use elevpn.Vpn.Manager.{Component}

-- The device of `New`.
abbrev pub no_device : Device
no_device = record { f = none; actual_name = []; opened = []; ioctls = [] }

module _ {K : Type 0} (os : Os) where
  abbrev pub beside : K → Device × Result (Unit {0}) → K × Device × Result (Unit {0})
  beside k (t, r) = (k, t, r)

  abbrev pub tun_component : Tun → Component K
  tun_component tun = record {
    Own = Device;
    own = no_device;
    apply = λ t k. beside k (tun_apply os tun t);
    cleanup = λ t k. beside k (tun_cleanup os tun t);
  }
