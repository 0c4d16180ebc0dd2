-- ===== src/Tun/Poll/Ready.antt =====
-- internal/tun/tun.go, `ReadContext`: what it does when a descriptor is readable.
use elevpn.Prelude.{
  ℕ, ◌≡◌, ◌≢◌, refl, ap, ◌∙◌, false, ◌==◌, of_ne, some, List, [], ◌∷◌, ◌++◌, All, bit_and, Result,
}
use elevpn.Bytes.{Bytes}
use elevpn.Tun.Poll.{
  Polled, interrupted, would_block, failed, ready, verdict, input, nothing, pollin, pollerr,
  pollnval, canceled_by, poll_loop, read_context,
}

-- Poll is called again: it was interrupted, or nothing is there.
abbrev pub IsRetry : Polled → Type 0
IsRetry interrupted = Unit {0}
IsRetry would_block = Unit {0}
IsRetry failed = ⊥
IsRetry (ready e t) = (e ≡ 0) × (t ≡ 0)

-- POLLIN is set, and neither POLLNVAL nor POLLERR.
pub record IsReadable (revents : ℕ) : Type 0 where
  pub has_input : bit_and revents pollin ≢ 0
  pub is_valid : bit_and revents pollnval ≡ 0
  pub no_error : bit_and revents pollerr ≡ 0

verdict_input : (r : ℕ) → IsReadable r → verdict r ≡ input
unfolding verdict
verdict_input r h =
    let some_event : (r == 0) ≡ false =
      of_ne r 0 (λ e. h.has_input (ap (λ (x : ℕ). bit_and x pollin) e)) in
    rw (some_event, h.is_valid, h.no_error, of_ne (bit_and r pollin) 0 h.has_input) refl

verdict_nothing : verdict 0 ≡ nothing
unfolding verdict
verdict_nothing = refl

module _ (event_read : Result ℕ) (tun_read : Result Bytes) where
  poll_loop_retries :
      (retries later : List Polled)
      → All IsRetry retries
      → poll_loop event_read tun_read (retries ++ later) ≡ poll_loop event_read tun_read later
  unfolding poll_loop verdict
  poll_loop_retries [] later h = refl
  poll_loop_retries (interrupted ∷ retries) later h = poll_loop_retries retries later h.1
  poll_loop_retries (would_block ∷ retries) later h = poll_loop_retries retries later h.1
  poll_loop_retries (failed ∷ retries) later h = absurd h.0
  poll_loop_retries (ready e t ∷ retries) later h =
      rw (h.0.0, h.0.1) (poll_loop_retries retries later h.1)

  event_first :
      (r t : ℕ) (later : List Polled)
      → IsReadable r
      → poll_loop event_read tun_read (ready r t ∷ later) ≡ some (canceled_by event_read)
  unfolding poll_loop
  event_first r t later k = rw (verdict_input r k) refl

  device_only :
      (r : ℕ) (later : List Polled)
      → IsReadable r
      → poll_loop event_read tun_read (ready 0 r ∷ later) ≡ some tun_read
  unfolding poll_loop
  device_only r later k = rw (verdict_nothing, verdict_input r k) refl

  -- However often the poll has to be made again before, `ReadContext` of an open device ends as soon as the event descriptor
  -- is readable, whatever there is of the device at that moment: with the error of reading the event descriptor if
  -- that read fails, and with a cancellation if it does not. When the device is readable and there is nothing of the
  -- event, it ends with what the read of the device gives.
  pub read_context_ready :
      (fd r t : ℕ) (retries later : List Polled)
      → All IsRetry retries
      → IsReadable r
      → (read_context event_read tun_read (some fd) (retries ++ (ready r t ∷ later))
          ≡ some (canceled_by event_read))
        × (read_context event_read tun_read (some fd) (retries ++ (ready 0 r ∷ later))
            ≡ some tun_read)
  unfolding read_context
  read_context_ready fd r t retries later h k = (
    poll_loop_retries retries (ready r t ∷ later) h ∙ event_first r t later k,
    poll_loop_retries retries (ready 0 r ∷ later) h ∙ device_only r later k,
  )
