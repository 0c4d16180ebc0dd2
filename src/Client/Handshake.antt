-- ===== src/Client/Handshake.antt =====
-- internal/client/handshake.go: the client's side of the handshake.
pub mod Answered
pub mod Agreed
use elevpn.Prelude.{
  ℕ, ◌+◌, not, ◌==◌, some, [], take, Error, fault, unexpected_type, invalid_welcome_sequence,
  Result, ok, err, ◌>>=◌, ◌>>◌, reject, wrapping,
}
use elevpn.Bytes.{Bytes}
use elevpn.Protocol.Message.{
  new_message, message_type_aloha, message_type_welcome, message_header_len, max_payload_size,
  aead_tag_len,
}
use elevpn.Protocol.ReplayWindow.{ReplayWindow, new_window, accept}
use elevpn.Protocol.Payload.{Addr, decode_welcome_payload}
use elevpn.Protocol.Aead.{Crypto, Cipher, CipherSuite, new_aloha_cipher, new_peer_cipher}
use elevpn.Protocol.Handshake.{handshake_random_len, encode_aloha_packet, decode_welcome_packet}

pub record HandshakeResult : Type 0 where
  pub peer_id : ℕ
  pub tunnel_ip : Addr
  pub mtu : ℕ
  pub cipher : Cipher
  pub client_sequence : ℕ
  pub server_replay_window : ReplayWindow

module _ (crypto : Crypto) (cs : CipherSuite) where
  -- From the packet that was read on.
  unfoldable pub read_welcome : Bytes → Bytes → Result HandshakeResult
  read_welcome client_random packet = do
    decoded ← decode_welcome_packet crypto cs packet client_random
    let message = decoded.0
    let server_random = decoded.1
    reject (not (message.message_type == message_type_welcome)) (fault unexpected_type)
    reject (not (message.sequence == 1)) (fault invalid_welcome_sequence)
    wrapping (accept new_window message.sequence).1
    welcome_payload ← decode_welcome_payload message.payload
    peer_cipher ← new_peer_cipher crypto cs message.peer_id client_random server_random
    ok (record {
      peer_id = message.peer_id;
      tunnel_ip = welcome_payload.tunnel_ip;
      mtu = welcome_payload.mtu;
      cipher = peer_cipher;
      client_sequence = 1;
      server_replay_window = (accept new_window message.sequence).0;
    })

  -- `random` is what the random source gives, `write` the answer of the connection to a packet and
  -- `read` what it gives next, within the deadline that the code sets.
  unfoldable pub handshake :
      Result Bytes → (Bytes → Result ℕ) → Result Bytes → Result HandshakeResult
  handshake random write read = do
    client_random ← random
    aloha_cipher ← new_aloha_cipher crypto cs client_random
    packet ←
        encode_aloha_packet (some aloha_cipher) (some (new_message message_type_aloha 0 1 []))
          client_random
    _ ← write packet
    received ← read
    read_welcome client_random (
        take (message_header_len + handshake_random_len + max_payload_size + aead_tag_len) received)
