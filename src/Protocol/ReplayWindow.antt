-- ===== src/Protocol/ReplayWindow.antt =====
-- internal/protocol/replay_window.go: the sliding window that refuses replayed packets.
pub mod History
pub mod Answers
pub mod Runs
pub mod Errors
use elevpn.Prelude.{
  ℕ, ◌+◌, ◌-◌, ◌*◌, ◌%◌, ◌^◌, bit_and, bit_or, Bool, true, false, not, ltb, leb, ◌==◌,
  if◌then◌else◌, Error, sentinel, wrap, invalid_sequence, sequence_too_old, duplicate_sequence,
  Result, ok, err,
}

abbrev pub replay_window_size : ℕ
replay_window_size = 64

-- Both fields are uint64.
pub record ReplayWindow : Type 0 where
  pub highest : ℕ
  pub bitmap : ℕ

-- The zero value of the struct.
abbrev pub new_window : ReplayWindow
new_window = record { highest = 0; bitmap = 0 }

-- `x << k` on a uint64.
unfoldable pub shl64 : ℕ → ℕ → ℕ
shl64 x k = x * 2 ^ k % 2 ^ 64

-- `sequence > rw.highest`
pub accept_newer : ReplayWindow → ℕ → ReplayWindow
accept_newer w sequence =
    let offset = sequence - w.highest in
    if leb replay_window_size offset
    then record { highest = sequence; bitmap = 1 }
    else record { highest = sequence; bitmap = bit_or (shl64 w.bitmap offset) 1 }

-- `sequence <= rw.highest`
pub accept_older : ReplayWindow → ℕ → ReplayWindow × Result (Unit {0})
accept_older w sequence =
    let offset = w.highest - sequence in
    let mask = shl64 1 offset in
    if leb replay_window_size offset
    then (w, err (wrap (sentinel sequence_too_old)))
    else if not (bit_and w.bitmap mask == 0)
    then (w, err (wrap (sentinel duplicate_sequence)))
    else (record w { bitmap = bit_or w.bitmap mask }, ok tt)

unfoldable pub accept : ReplayWindow → ℕ → ReplayWindow × Result (Unit {0})
unfolding accept_newer accept_older
accept w sequence =
    if sequence == 0
    then (w, err (wrap (sentinel invalid_sequence)))
    else if w.highest == 0
    then (record { highest = sequence; bitmap = 1 }, ok tt)
    else if ltb w.highest sequence
    then (accept_newer w sequence, ok tt)
    else accept_older w sequence
