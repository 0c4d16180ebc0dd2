-- ===== src/Client/Handshake/Answered.antt =====
-- internal/client/handshake.go: what a client takes from a WELCOME.
use elevpn.Prelude.{◌≡◌, refl, ok}
use elevpn.Bytes.{Bytes}
use elevpn.Protocol.Message.{Message, message_type_welcome}
use elevpn.Protocol.ReplayWindow.{new_window, accept}
use elevpn.Protocol.Payload.{WelcomePayload, decode_welcome_payload}
use elevpn.Protocol.Aead.{Crypto, IsCrypto, Cipher, CipherSuite, new_peer_cipher}
use elevpn.Protocol.Aead.Nonce.{new_peer_cipher_total}
use elevpn.Protocol.Handshake.{decode_welcome_packet}
use elevpn.Client.Handshake.{read_welcome}

accept_one : accept new_window 1 ≡ (record { highest = 1; bitmap = 1 }, ok tt)
unfolding accept
accept_one = refl

-- With crypto packages that do what they document, the client takes a packet that decodes to a WELCOME of
-- sequence 1 with a whole payload. It gets the id, address and MTU in it, goes on from sequence 1 in both
-- directions, and has the cipher that the server makes of the same id and randoms.
pub read_welcome_answered :
    (crypto : Crypto) (good : IsCrypto crypto) (cs : CipherSuite)
    (client_random server_random packet : Bytes) (m : Message) (payload : WelcomePayload)
    → decode_welcome_packet crypto cs packet client_random ≡ ok (m, server_random)
    → m.message_type ≡ message_type_welcome
    → m.sequence ≡ 1
    → decode_welcome_payload m.payload ≡ ok payload
    → (c : Cipher) × (new_peer_cipher crypto cs m.peer_id client_random server_random ≡ ok c)
      × (read_welcome crypto cs client_random packet
          ≡ ok (record {
            peer_id = m.peer_id;
            tunnel_ip = payload.tunnel_ip;
            mtu = payload.mtu;
            cipher = c;
            client_sequence = 1;
            server_replay_window = record { highest = 1; bitmap = 1 };
          }))
unfolding read_welcome
read_welcome_answered crypto good cs client_random server_random packet m payload decoded type one
      read =
    let (c, made, _) = new_peer_cipher_total crypto good cs m.peer_id client_random server_random in
    (c, made, rw (decoded, type, one, accept_one) (rw (read, made) refl))
