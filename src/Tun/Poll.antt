-- ===== src/Tun/Poll.antt =====
-- internal/tun/tun.go: `ReadContext`, which waits for a packet or for the event that tells of the end, and
-- `WriteContext`.
pub mod Ready
use elevpn.Prelude.{
  ℕ, ◌==◌, not, if◌then◌else◌, Option, none, some, List, [], ◌∷◌, length, bit_and, Error, fault,
  sentinel, canceled, wrap, external, tun_nil, poll_invalid, poll_error, poll_hangup,
  poll_unexpected, Result, ok, err,
}
use elevpn.Bytes.{Bytes}

-- What `unix.Poll` gives: an error, or the events of the event descriptor and of the device.
pub data Polled : Type 0 where
  -- EINTR, and EAGAIN or EWOULDBLOCK.
  interrupted would_block failed : Polled
  ready : (event_revents tun_revents : ℕ) → Polled

-- What a descriptor's events say.
pub data Verdict : Type 0 where
  nothing input : Verdict
  broken : Error → Verdict

abbrev pub pollin : ℕ
pollin = 0x1

abbrev pub pollerr : ℕ
pollerr = 0x8

abbrev pub pollhup : ℕ
pollhup = 0x10

abbrev pub pollnval : ℕ
pollnval = 0x20

unfoldable pub verdict : ℕ → Verdict
verdict revents =
    if revents == 0
    then nothing
    else if not (bit_and revents pollnval == 0)
    then broken (fault poll_invalid)
    else if not (bit_and revents pollerr == 0)
    then broken (fault poll_error)
    else if not (bit_and revents pollin == 0)
    then input
    else if not (bit_and revents pollhup == 0)
    then broken (fault poll_hangup)
    else broken (fault poll_unexpected)

-- `unix.Read` of the event, which is the sign to end.
abbrev pub canceled_by : Result ℕ → Result Bytes
canceled_by (err e) = err e
canceled_by (ok _) = err (sentinel canceled)

module _ (event_read : Result ℕ) (tun_read : Result Bytes) where
  -- The second round of the loop over the descriptors. `none`: poll again.
  abbrev pub tun_verdict : Verdict → Option (Result Bytes)
  tun_verdict nothing = none
  tun_verdict input = some tun_read
  tun_verdict (broken e) = some (err e)

  abbrev pub event_verdict : Verdict → Verdict → Option (Result Bytes)
  event_verdict nothing tun = tun_verdict tun
  event_verdict input tun = some (canceled_by event_read)
  event_verdict (broken e) tun = some (err e)

  abbrev pub or_poll_again : Option (Result Bytes) → Option (Result Bytes) → Option (Result Bytes)
  or_poll_again (some r) later = some r
  or_poll_again none later = later

  -- The loop over what `Poll` gives. `none`: it still waits.
  unfoldable pub poll_loop : List Polled → Option (Result Bytes)
  poll_loop [] = none
  poll_loop (interrupted ∷ later) = poll_loop later
  poll_loop (would_block ∷ later) = poll_loop later
  poll_loop (failed ∷ later) = some (err (wrap external))
  poll_loop (ready e t ∷ later) =
      or_poll_again (event_verdict (verdict e) (verdict t)) (poll_loop later)

  -- The field is `f`.
  unfoldable pub read_context : Option ℕ → List Polled → Option (Result Bytes)
  read_context none polled = some (err (fault tun_nil))
  read_context (some fd) polled = poll_loop polled

unfoldable pub write_context : Option ℕ → (Bytes → Result ℕ) → Bytes → Result ℕ
write_context none write b = err (fault tun_nil)
write_context (some fd) write b = write b
