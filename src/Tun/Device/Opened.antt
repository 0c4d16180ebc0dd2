-- ===== src/Tun/Device/Opened.antt =====
-- internal/tun/tun.go: which descriptors are open after `Apply`, on every branch.
use elevpn.Prelude.{
  ℕ, ◌≡◌, refl, sym, ap, ◌∙◌, ◌==◌, ==_iff, true, Option, none, some, List, ◌∷◌, Result, ok, err,
  wrapping, bit_or,
}
use elevpn.Bytes.{Bytes}
use elevpn.Net.{to4, parse_cidr}
use elevpn.Vpn.Route.{cidr_ip}
use elevpn.Vpn.Masquerade.{mask_bytes}
use elevpn.Tun.Host.{
  for_mtu, for_cidr, for_flags, tunsetiff, siocsifmtu, siocsifaddr, siocsifnetmask, siocgifflags,
  siocsifflags, Os, Ioctl, Device, Method, ◌>>=◌, ◌>>◌, answer, remove_fd, close, with_socket,
  asked,
}
use elevpn.Tun.Device.{
  Tun, set_file, set_interface, opened_tun, create, need_tun_ip4, iff_up, iff_tun_no_pi, need_file,
  interface_ioctl, set_mtu, address_ioctl, set_ipv4_cidr, up, tun_apply,
}

-- The device file and the open descriptors are as before.
record IsSame (t t' : Device) : Type 0 where
  same_f : t'.f ≡ t.f
  same_opened : t'.opened ≡ t.opened

abbrev Keeps : {A : Type 0} → Method A → Type 0
Keeps m = (t : Device) → IsSame t (m t).0

IsSame-trans : {t u v : Device} → IsSame t u → IsSame u v → IsSame t v
IsSame-trans p q = record {
  same_f = q.same_f ∙ p.same_f;
  same_opened = q.same_opened ∙ p.same_opened;
}

IsSame-refl : {t : Device} → IsSame t t
IsSame-refl = record { same_f = refl; same_opened = refl }

bound-Keeps :
    {A B : Type 0} (rest : A → Method B) (t : Device) (q : Device × Result A)
    → IsSame t q.0
    → ((a : A) → Keeps (rest a))
    → IsSame t
        (let (t', r) = q in
          let out : Device × Result B = elim r [ ok a ↦ rest a t' | err e ↦ (t', err e) ] in out).0
bound-Keeps rest t (t', ok a) h k = IsSame-trans h (k a t')
bound-Keeps rest t (t', err e) h k = h

bind-Keeps :
    {A B : Type 0} (m : Method A) (rest : A → Method B)
    → Keeps m
    → ((a : A) → Keeps (rest a))
    → Keeps (m >>= rest)
unfolding ◌>>=◌
bind-Keeps m rest h k t = bound-Keeps rest t (m t) (h t) k

answer-Keeps : {A : Type 0} (r : Result A) → Keeps (answer r)
answer-Keeps r t = IsSame-refl

pub remove_held : (fd : ℕ) (fds : List ℕ) → remove_fd fd (fd ∷ fds) ≡ fds
remove_held fd fds = let own : (fd == fd) ≡ true = (==_iff fd fd).1 refl in rw own refl

-- A socket is closed on every branch.
with_socket-Keeps :
    (r : Result ℕ) (body : ℕ → Method (Unit {0}))
    → ((fd : ℕ) → Keeps (body fd))
    → Keeps (with_socket r body)
unfolding with_socket
with_socket-Keeps (err e) body h t = IsSame-refl
with_socket-Keeps (ok fd) body h t =
    let inside = h fd (record t { opened = fd ∷ t.opened }) in
    record {
      same_f = inside.same_f;
      same_opened = ap (remove_fd fd) inside.same_opened ∙ remove_held fd t.opened;
    }

-- The descriptor of the device, where it is set, in front of others.
abbrev pub held : Option ℕ → List ℕ → List ℕ
held none fds = fds
held (some fd) fds = fd ∷ fds

closed :
    (fd : ℕ) (t : Device) (fds : List ℕ)
    → t.f ≡ none
    → t.opened ≡ fd ∷ fds
    → (close fd t).opened ≡ held t.f fds
closed fd t fds none_before h =
    ap (remove_fd fd) h ∙ remove_held fd fds ∙ ap (λ (o : Option ℕ). held o fds) (sym none_before)

module _ (os : Os) (tun : Tun) where
  need_file-Keeps : Keeps (need_file os tun)
  need_file-Keeps t = IsSame-refl

  asked-Keeps :
      (request : Ioctl) → Keeps (λ t. let (t', r) = asked os request t in (t', wrapping r))
  asked-Keeps request t = record { same_f = refl; same_opened = refl }

  interface_ioctl-Keeps : (request : Ioctl) → Keeps (interface_ioctl os tun request)
  unfolding interface_ioctl
  interface_ioctl-Keeps request =
      bind-Keeps _ _ (answer-Keeps (wrapping (os.new_ifreq tun.name))) (λ _. asked-Keeps request)

  set_mtu-Keeps : Keeps (set_mtu os tun)
  unfolding set_mtu
  set_mtu-Keeps = bind-Keeps _ _ need_file-Keeps (λ _. with_socket-Keeps (os.socket for_mtu) _ (λ _.
      bind-Keeps _ _ (interface_ioctl-Keeps (siocsifmtu tun.name tun.mtu))
        (λ _. answer-Keeps (ok tt))))

  address_ioctl-Keeps :
      (address : Bytes) (request : Ioctl) → Keeps (address_ioctl os tun address request)
  unfolding address_ioctl
  address_ioctl-Keeps address request =
      bind-Keeps _ _ (answer-Keeps (wrapping (os.new_ifreq tun.name))) (λ _.
        bind-Keeps _ _ (answer-Keeps (wrapping (os.set_inet4_addr address)))
          (λ _. bind-Keeps _ _ (asked-Keeps request) (λ _. answer-Keeps (ok tt))))

  set_ipv4_cidr-Keeps : Keeps (set_ipv4_cidr os tun)
  unfolding set_ipv4_cidr
  set_ipv4_cidr-Keeps = bind-Keeps _ _ need_file-Keeps (λ _.
      bind-Keeps _ _ (answer-Keeps (wrapping (parse_cidr tun.cidr))) (λ ipnet.
        bind-Keeps _ _ (answer-Keeps (need_tun_ip4 (to4 (cidr_ip tun.cidr)))) (λ ip4.
          bind-Keeps _ _ (answer-Keeps (need_tun_ip4 (to4 (mask_bytes ipnet)))) (λ mask4.
            with_socket-Keeps (os.socket for_cidr) _ (λ _.
              bind-Keeps _ _ (address_ioctl-Keeps ip4 (siocsifaddr tun.name ip4))
                (λ _. address_ioctl-Keeps mask4 (siocsifnetmask tun.name mask4)))))))

  up-Keeps : Keeps (up os tun)
  unfolding up
  up-Keeps = bind-Keeps _ _ need_file-Keeps (λ _. with_socket-Keeps (os.socket for_flags) _ (λ _.
      bind-Keeps _ _ (interface_ioctl-Keeps (siocgifflags tun.name)) (λ flags.
        bind-Keeps _ _ (asked-Keeps (siocsifflags tun.name (bit_or flags iff_up)))
          (λ _. answer-Keeps (ok tt)))))

  set_up-Keeps : Keeps (set_mtu os tun >> (set_ipv4_cidr os tun >> up os tun))
  set_up-Keeps =
      bind-Keeps _ _ set_mtu-Keeps (λ _. bind-Keeps _ _ set_ipv4_cidr-Keeps (λ _. up-Keeps))

  -- A file that `create` sets is open, and where it sets none, nothing is.
  set_file-held :
      (fd : ℕ) (t : Device) (fds : List ℕ) (r : Result ℕ)
      → t.f ≡ none
      → t.opened ≡ fd ∷ fds
      → let t' = (set_file os tun fd t r).0 in t'.opened ≡ held t'.f fds
  unfolding set_file
  set_file-held fd t fds (ok _) none_before h = h
  set_file-held fd t fds (err e) none_before h = closed fd t fds none_before h

  interface_held :
      (fd : ℕ) (t : Device) (fds : List ℕ) (r : Result (Unit {0}))
      → t.f ≡ none
      → t.opened ≡ fd ∷ fds
      → let t' = (set_interface os tun fd t r).0 in t'.opened ≡ held t'.f fds
  unfolding set_interface
  interface_held fd t fds (err e) none_before h = closed fd t fds none_before h
  interface_held fd t fds (ok _) none_before h =
      set_file-held fd _ fds (os.ioctl (tunsetiff tun.name iff_tun_no_pi)) none_before h

  opened_held :
      (t : Device) (r : Result ℕ)
      → t.f ≡ none
      → let t' = (opened_tun os tun t r).0 in t'.opened ≡ held t'.f t.opened
  unfolding opened_tun
  opened_held t (err e) h = ap (λ (o : Option ℕ). held o t.opened) (sym h)
  opened_held t (ok fd) h = interface_held fd _ t.opened (os.new_ifreq tun.name) h refl

  bound_held :
      (rest : Method (Unit {0})) (fds : List ℕ) (q : Device × Result (Unit {0}))
      → q.0.opened ≡ held q.0.f fds
      → Keeps rest
      → let (t', r) = q in
        let out : Device × Result (Unit {0}) = elim r [ ok _ ↦ rest t' | err e ↦ (t', err e) ] in
        out.0.opened ≡ held out.0.f fds
  bound_held rest fds (t', err e) h k = h
  bound_held rest fds (t', ok _) h k =
      (k t').same_opened ∙ h ∙ ap (λ (o : Option ℕ). held o fds) (sym (k t').same_f)

  -- Whatever the kernel answers, after `Apply` of a device without a file there is no open descriptor but those from before and
  -- that of the device, which is open exactly if it is set; so each socket is closed, and so is the
  -- device's descriptor when `create` fails.
  pub tun_apply_opened :
      (t : Device) → t.f ≡ none → let t' = (tun_apply os tun t).0 in t'.opened ≡ held t'.f t.opened
  unfolding tun_apply ◌>>=◌ create
  tun_apply_opened t h =
      bound_held (set_mtu os tun >> (set_ipv4_cidr os tun >> up os tun)) t.opened (create os tun t)
        (opened_held t os.open_tun h) set_up-Keeps
