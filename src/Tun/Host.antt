-- ===== src/Tun/Host.antt =====
-- What internal/tun/tun.go asks of the kernel: descriptors, and ioctls on a network interface. The answers are
-- arguments; what is done is kept, with the fields of the device.
use elevpn.Prelude.{ℕ, ◌==◌, if◌then◌else◌, Option, List, [], ◌∷◌, ◌++◌, Result, ok, err, wrap}
use elevpn.Bytes.{Bytes}

-- The requests, with the name in the `Ifreq` and its value.
pub data Ioctl : Type 0 where
  tunsetiff siocsifmtu siocsifflags : Bytes → ℕ → Ioctl
  siocsifaddr siocsifnetmask : Bytes → Bytes → Ioctl
  siocgifflags : Bytes → Ioctl

-- Which method opens a socket.
pub data Purpose : Type 0 where
  for_mtu for_cidr for_flags : Purpose

-- The answers of golang.org/x/sys/unix and os.
pub record Os : Type 0 where
  -- `unix.Open` of /dev/net/tun, and the name that the kernel chose.
  pub open_tun : Result ℕ
  pub actual_name : Bytes
  pub new_ifreq : Bytes → Result (Unit {0})
  pub set_inet4_addr : Bytes → Result (Unit {0})
  pub socket : Purpose → Result ℕ
  -- The value is that in the `Ifreq` afterwards.
  pub ioctl : Ioctl → Result ℕ
  pub close_file : ℕ → Result (Unit {0})

-- The fields `f` and `actualName`, the open descriptors, the last first, and the ioctls so far.
pub record Device : Type 0 where
  pub f : Option ℕ
  pub actual_name : Bytes
  pub opened : List ℕ
  pub ioctls : List Ioctl

abbrev pub Method : Type 0 → Type 0
Method A = Device → Device × Result A

infixl 5 ◌>>=◌ ◌>>◌
unfoldable pub ◌>>=◌ : {A B : Type 0} → Method A → (A → Method B) → Method B
(m >>= rest) t = let (t', r) = m t in elim r [ ok a ↦ rest a t' | err e ↦ (t', err e) ]

abbrev pub ◌>>◌ : {B : Type 0} → Method (Unit {0}) → Method B → Method B
m >> k = m >>= λ _. k

abbrev pub answer : {A : Type 0} → Result A → Method A
answer r t = (t, r)

abbrev pub remove_fd : ℕ → List ℕ → List ℕ
remove_fd fd [] = []
remove_fd fd (x ∷ fds) = if x == fd then fds else x ∷ remove_fd fd fds

-- `unix.Close`
abbrev pub close : ℕ → Device → Device
close fd t = record t { opened = remove_fd fd t.opened }

-- A descriptor that is closed when the rest of the method returns: `defer unix.Close(fd)`.
unfoldable pub with_socket : Result ℕ → (ℕ → Method (Unit {0})) → Method (Unit {0})
with_socket (err e) body t = (t, err (wrap e))
with_socket (ok fd) body t =
    let (t', r) = body fd (record t { opened = fd ∷ t.opened }) in (close fd t', r)

abbrev pub asked : Os → Ioctl → Method ℕ
asked os request t = (record t { ioctls = t.ioctls ++ (request ∷ []) }, os.ioctl request)
