-- ===== src/Tests/Client.antt =====
-- The properties of the client at concrete inputs.
use elevpn.Prelude.{◌≡◌, ◌⊎◌, none, [], ◌∷◌, length, ok}
use elevpn.Protocol.Message.{Message}
use elevpn.Client.Session.{Session, session_udp_to_tun_round}
use elevpn.Client.Session.Rounds.{IsData, session_udp_to_tun_round_writes}
use elevpn.Tests.Protocol.{toy_cipher, sealed_packet}

abbrev pub session : Session
session = record {
  peer_id = 1;
  cipher = toy_cipher;
  client_send_sequence = 1;
  server_replay_window = record { highest = 1; bitmap = 1 };
}

session_udp_to_tun_round_writes_example :
    let o =
      session_udp_to_tun_round none (λ packet. ok (length packet)) session (ok sealed_packet) in
    (o.writes ≡ []) ⊎ ((m : Message) × IsData session sealed_packet m × (o.writes ≡ m.payload ∷ []))
session_udp_to_tun_round_writes_example =
    session_udp_to_tun_round_writes none (λ packet. ok (length packet)) session sealed_packet
