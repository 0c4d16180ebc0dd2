-- ===== src/Tun/Device/Cleaned.antt =====
-- internal/tun/tun.go: which descriptors are open after `Apply` and after the `Cleanup` behind it.
use elevpn.Prelude.{ℕ, ◌≡◌, none, List, Result, ok, err}
use elevpn.Tun.Host.{Device}
use elevpn.Tun.Device.{Tun}

-- When `Cleanup` gives nil: the file is forgotten, and only the descriptors from before are open.
abbrev pub Cleaned : List ℕ → Device × Result (Unit {0}) → Type 0
Cleaned fds (t, ok _) = (t.f ≡ none) × (t.opened ≡ fds)
Cleaned fds (t, err e) = Unit {0}
