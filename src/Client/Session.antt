-- ===== src/Client/Session.antt =====
-- internal/client/session.go: the session of a client after its handshake. A round of a loop takes what
-- the blocking call at its top gave, and gives the new session, what it wrote, and a result: `ok` goes on to
-- the next round, `err` is what the loop returns.
pub mod Rounds
pub mod Delivered
use elevpn.Prelude.{
  ℕ, ◌+◌, ◌%◌, ◌^◌, Bool, true, false, not, ◌==◌, ltb, if◌then◌else◌, Option, none, some, List, [],
  ◌∷◌, length, take, Error, sentinel, short_write, Result, ok, err, wrapping, reject,
}
use elevpn.Bytes.{Bytes}
use elevpn.Protocol.Message.{
  Message, new_message, message_type_data, message_type_keepalive, message_header_len,
  max_payload_size, aead_tag_len,
}
use elevpn.Protocol.ReplayWindow.{ReplayWindow, accept}
use elevpn.Protocol.Aead.{Cipher, client_to_server, server_to_client}
use elevpn.Protocol.Packet.{encode_packet, decode_packet}

pub record Session : Type 0 where
  pub peer_id : ℕ
  pub cipher : Cipher
  pub client_send_sequence : ℕ
  pub server_replay_window : ReplayWindow

-- What a round leaves.
pub record Outcome : Type 0 where
  pub session : Session
  pub writes : List Bytes
  pub result : Result (Unit {0})

-- The counter is a uint64.
unfoldable pub next_session_sequence : Session → Session × ℕ
next_session_sequence s =
    let sequence = (s.client_send_sequence + 1) % 2 ^ 64 in
    (record s { client_send_sequence = sequence }, sequence)

unfoldable pub accept_server_sequence : Session → ℕ → Session × Result (Unit {0})
accept_server_sequence s seq =
    let (window, answer) = accept s.server_replay_window seq in
    (record s { server_replay_window = window }, wrapping answer)

-- `continue`
abbrev pub go_on : Session → Outcome
go_on s = record { session = s; writes = []; result = ok tt }

-- What the code returns for the answer to a write, or for a failed read.
abbrev pub write_answer : Option Error → ℕ → Result ℕ → Result (Unit {0})
write_answer (some canceled) size (err e) = err canceled
write_answer none size (err e) = err e
write_answer ctx_err size (ok written) = reject (not (written == size)) (sentinel short_write)

module _ (ctx_err : Option Error) where
  -- A device or a connection is the function from what is written to the answer.
  unfoldable pub write_packet : (Bytes → Result ℕ) → Session → Bytes → Outcome
  write_packet write s bytes = record {
    session = s;
    writes = bytes ∷ [];
    result = write_answer ctx_err (length bytes) (write bytes);
  }

  -- After `acceptServerSequence`.
  unfoldable pub deliver_accepted :
      (Bytes → Result ℕ) → Message → Session × Result (Unit {0}) → Outcome
  deliver_accepted tun packet (s, err e) = go_on s
  deliver_accepted tun packet (s, ok _) = write_packet tun s packet.payload

  -- After `DecodePacket`.
  unfoldable pub deliver_decoded : (Bytes → Result ℕ) → Session → Result Message → Outcome
  deliver_decoded tun s (err e) = go_on s
  deliver_decoded tun s (ok packet) =
      if packet.message_type == message_type_data
      then deliver_accepted tun packet (accept_server_sequence s packet.sequence)
      else go_on s

  -- A round of `udpToTun`: what does not fit in the buffer is cut off, an empty datagram does nothing.
  unfoldable pub session_udp_to_tun_round : (Bytes → Result ℕ) → Session → Result Bytes → Outcome
  session_udp_to_tun_round tun s (err e) = record {
    session = s;
    writes = [];
    result = write_answer ctx_err 0 (err e);
  }
  session_udp_to_tun_round tun s (ok datagram) =
      let buf = take (message_header_len + max_payload_size + aead_tag_len) datagram in
      if ltb 0 (length buf)
      then deliver_decoded tun s (decode_packet s.cipher buf server_to_client)
      else go_on s

  unfoldable pub send_encoded : (Bytes → Result ℕ) → Session → Result Bytes → Outcome
  send_encoded conn s (err e) = record { session = s; writes = []; result = err e }
  send_encoded conn s (ok packet) = write_packet conn s packet

  -- A message of the client under its next sequence.
  unfoldable pub send_message : (Bytes → Result ℕ) → Session → ℕ → Bytes → Outcome
  send_message conn s message_type payload =
      let (s', sequence) = next_session_sequence s in
      send_encoded conn s' (
        encode_packet s'.cipher (new_message message_type s'.peer_id sequence payload)
          client_to_server)

  -- A round of `tunToUdp`: the device cuts a packet to the buffer, and an empty read does nothing.
  unfoldable pub session_tun_to_udp_round : (Bytes → Result ℕ) → Session → Result Bytes → Outcome
  session_tun_to_udp_round conn s (err e) = record { session = s; writes = []; result = err e }
  session_tun_to_udp_round conn s (ok read) =
      let packet = take max_payload_size read in
      if ltb 0 (length packet) then send_message conn s message_type_data packet else go_on s

  -- A tick of `keepAliveLoop`.
  unfoldable pub keep_alive_round : (Bytes → Result ℕ) → Session → Outcome
  keep_alive_round conn s = send_message conn s message_type_keepalive []
