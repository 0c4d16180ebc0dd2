-- ===== src/Prelude/Faults.antt =====
-- Go's error values and (value, error) pairs, shared by all packages.
-- The text of a message and the numbers printed in it are left out: an error is told apart by the
-- place that makes it, by what it wraps and by whether `errors.Is` can see through it.
use mathlib.Core.Path.{◌≡◌, refl}
use mathlib.Core.Logic.{◌≢◌}
use mathlib.Core.Bool.{Bool, true, false, ◌||◌}

-- The error variables that the code compares with by `errors.Is`.
pub data Sentinel : Type 0 where
  drop_packet invalid_sequence sequence_too_old duplicate_sequence : Sentinel
  authentication_failed canceled short_write : Sentinel

-- One name for each `errors.New` or `fmt.Errorf` that wraps nothing.
pub data Fault : Type 0 where
  -- internal/protocol
  message_nil invalid_message_type invalid_payload_size : Fault
  short_header payload_too_large invalid_version unknown_message_type : Fault
  cipher_nil short_packet peer_id_not_zero peer_id_zero sequence_zero : Fault
  psk_empty not_ipv4 mtu_zero invalid_welcome_length : Fault
  -- internal/server
  conn_nil nil_pointer addr_nil peer_not_found peer_nil tunnel_ip_exists invalid_ip_range : Fault
  not_ipv4_network network_too_small : Fault
  packet_short invalid_ihl header_truncated total_len_short packet_truncated : Fault
  -- internal/client
  unexpected_type invalid_welcome_sequence server_not_ipv4 : Fault
  -- internal/netlink
  response_timeout buffer_overflow invalid_netlink_reply short_nlmsg_error netlink_errno : Fault
  table_name_empty no_default_index no_default_name no_default_gateway nlmsg_error_reply : Fault
  -- internal/vpn and internal/tun
  server_route_ip_empty gateway_empty gateway_interface_empty tunnel_interface_empty : Fault
  ipv4_only invalid_index invalid_cidr_format chain_name_empty oif_name_empty oif_name_long : Fault
  tun_name_empty tun_nil poll_invalid poll_error poll_hangup poll_unexpected : Fault
  -- An index behind the end of a slice: a panic.
  out_of_range : Fault

pub data Error : Type 0 where
  sentinel : Sentinel → Error
  fault : Fault → Error
  -- What a package outside the repository returns.
  external : Error
  -- `fmt.Errorf` with `%w`, and with `%v`.
  wrap : Error → Error
  hide : Error → Error
  -- `errors.Join` of two errors.
  join : Error → Error → Error

abbrev pub same_sentinel : Sentinel → Sentinel → Bool
same_sentinel drop_packet drop_packet = true
same_sentinel invalid_sequence invalid_sequence = true
same_sentinel sequence_too_old sequence_too_old = true
same_sentinel duplicate_sequence duplicate_sequence = true
same_sentinel authentication_failed authentication_failed = true
same_sentinel canceled canceled = true
same_sentinel short_write short_write = true
same_sentinel _ _ = false

-- `errors.Is` looks through `%w` and `errors.Join`, and not through `%v`.
abbrev pub errors_is : Error → Sentinel → Bool
errors_is (sentinel s) t = same_sentinel s t
errors_is (fault f) t = false
errors_is external t = false
errors_is (wrap e) t = errors_is e t
errors_is (hide e) t = false
errors_is (join d e) t = errors_is d t || errors_is e t

pub data Result {ℓ} (V : Type ℓ) : Type ℓ where
  err : Error → Result V
  ok : V → Result V

-- `v, err := first(); if err != nil { return ..., err }`, and the rest of the body.
infixl 5 ◌>>=◌
abbrev pub ◌>>=◌ {ℓ κ} :
    {V : Type ℓ} {W : Type κ} (first : Result V) (rest : V → Result W) → Result W
err e >>= rest = err e
ok v >>= rest = rest v

infixl 5 ◌>>◌
abbrev pub ◌>>◌ {κ} : {W : Type κ} (check : Result (Unit {0})) (rest : Result W) → Result W
check >> rest = check >>= λ _. rest

-- `if cond { return ..., err }`
abbrev pub reject : Bool → Error → Result (Unit {0})
reject true e = err e
reject false e = ok tt

-- `if err != nil { return ..., fmt.Errorf("...: %w", err) }`
abbrev pub wrapping {ℓ} : {A : Type ℓ} → Result A → Result A
wrapping (ok a) = ok a
wrapping (err e) = err (wrap e)

-- `if err != nil { return ..., fmt.Errorf("...: %v", err) }`
abbrev pub hiding {ℓ} : {A : Type ℓ} → Result A → Result A
hiding (ok a) = ok a
hiding (err e) = err (hide e)

pub err-ne-ok {ℓ} : {V : Type ℓ} {e : Error} {v : V} → err e ≢ ok v
err-ne-ok q = cc

pub ok-ne-err {ℓ} : {V : Type ℓ} {v : V} {e : Error} → ok v ≢ err e
ok-ne-err q = cc

pub err-injective {ℓ} : {V : Type ℓ} {d e : Error} → ◌≡◌ {A = Result V} (err d) (err e) → d ≡ e
err-injective q = cc

pub ok-injective {ℓ} : {V : Type ℓ} {v v' : V} → ok v ≡ ok v' → v ≡ v'
ok-injective q = cc

-- A body that succeeds got past its first call, for proofs where the parts stay shut.
pub >>=-eq-ok {ℓ κ} :
    {V : Type ℓ} {W : Type κ} (first : Result V) (rest : V → Result W) {w : W}
    → (first >>= rest) ≡ ok w
    → (v : V) × (first ≡ ok v) × (rest v ≡ ok w)
>>=-eq-ok (err e) rest q = absurd (err-ne-ok q)
>>=-eq-ok (ok v) rest q = (v, refl, q)

pub wrapping-eq-ok {ℓ} :
    {V : Type ℓ} (first : Result V) {v : V} → wrapping first ≡ ok v → first ≡ ok v
wrapping-eq-ok (err e) q = absurd (err-ne-ok q)
wrapping-eq-ok (ok _) q = q

pub reject-eq-ok : (b : Bool) (e : Error) {u : Unit {0}} → reject b e ≡ ok u → b ≡ false
reject-eq-ok true e h = cc
reject-eq-ok false e h = refl
