-- ===== src/Server/Peer.antt =====
-- internal/server/peer.go: one peer. Each method holds the peer's lock for its whole body, so it is one
-- step on the record; a method that only reads gives the value.
use elevpn.Prelude.{ℕ, ◌+◌, ◌-◌, ◌%◌, ◌^◌, Bool, ltb, Option, none, Result, wrapping}
use elevpn.Bytes.{Bytes}
use elevpn.Net.{UdpAddr}
use elevpn.Protocol.Payload.{Addr, invalid}
use elevpn.Protocol.Aead.{Cipher}
use elevpn.Protocol.ReplayWindow.{ReplayWindow, new_window, accept}

-- Times are nanoseconds of one clock.
pub record Peer : Type 0 where
  pub id : ℕ
  pub addr : Option UdpAddr
  pub tunnel_ip : Addr
  pub client_random : Bytes
  pub cipher : Option Cipher
  pub server_send_sequence : ℕ
  pub client_replay_window : ReplayWindow
  pub last_seen : ℕ

-- `&peer{id, addr, clientRandom, lastSeen}`: the other fields have their zero values.
abbrev pub new_peer : ℕ → Option UdpAddr → Bytes → ℕ → Peer
new_peer id addr client_random last_seen = record {
  id = id;
  addr = addr;
  tunnel_ip = invalid;
  client_random = client_random;
  cipher = none;
  server_send_sequence = 0;
  client_replay_window = new_window;
  last_seen = last_seen;
}

unfoldable pub set_cipher : Peer → Option Cipher → Peer
set_cipher p cipher = record p { cipher = cipher }

unfoldable pub cipher_snapshot : Peer → Option Cipher
cipher_snapshot p = p.cipher

-- The counter is a uint64. The new value is the sequence to send.
unfoldable pub next_send_sequence : Peer → Peer × ℕ
next_send_sequence p =
    let sequence = (p.server_send_sequence + 1) % 2 ^ 64 in
    (record p { server_send_sequence = sequence }, sequence)

unfoldable pub accept_client_sequence : Peer → ℕ → Peer × Result (Unit {0})
accept_client_sequence p seq =
    let (window, answer) = accept p.client_replay_window seq in
    (record p { client_replay_window = window }, wrapping answer)

unfoldable pub set_tunnel_ip : Peer → Addr → Peer
set_tunnel_ip p ip = record p { tunnel_ip = ip }

unfoldable pub touch : Peer → ℕ → Peer
touch p now = record p { last_seen = now }

-- `now.Sub(p.lastSeen) > timeout`. A peer seen after `now` is not expired, as for the signed difference.
unfoldable pub expired : Peer → ℕ → ℕ → Bool
expired p now timeout = ltb timeout (now - p.last_seen)

unfoldable pub tunnel_ip_snapshot : Peer → Addr
tunnel_ip_snapshot p = p.tunnel_ip
