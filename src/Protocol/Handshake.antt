-- ===== src/Protocol/Handshake.antt =====
-- internal/protocol/handshake_codec.go and random.go: ALOHA and WELCOME packets.
-- A `HandshakeRandom` is a list of 16 bytes. A pointer that the code compares with nil is an Option.
pub mod Seal
pub mod Aloha
pub mod Welcome
use elevpn.Prelude.{
  ℕ, ◌+◌, ◌<◌, Bool, true, false, not, ltb, ◌==◌, Option, none, some, ◌++◌, length, take, drop,
  Error, fault, cipher_nil, message_nil, invalid_message_type, short_packet, invalid_version,
  peer_id_not_zero, peer_id_zero, sequence_zero, Result, ok, err, ◌>>=◌, ◌>>◌, reject, wrapping,
}
use elevpn.Bytes.{Bytes}
use elevpn.Protocol.Message.{
  message_header_len, aead_tag_len, message_type_aloha, message_type_welcome, protocol_version,
  Header, Message,
}
use elevpn.Protocol.Codec.{encode, peek_header, decode}
use elevpn.Protocol.Aead.{
  Crypto, Cipher, CipherSuite, Direction, client_to_server, server_to_client, seal_payload,
  open_payload, new_aloha_cipher, new_welcome_cipher,
}

abbrev pub handshake_random_len : ℕ
handshake_random_len = 16

abbrev pub aloha_packet_prefix_len : ℕ
aloha_packet_prefix_len = message_header_len + handshake_random_len

abbrev pub welcome_packet_prefix_len : ℕ
welcome_packet_prefix_len = message_header_len + handshake_random_len

-- What both encoders do after their checks: the header and the random are the additional data, and
-- stand in front of the sealed payload.
unfoldable pub seal_handshake : Cipher → Direction → Message → Bytes → Result Bytes
seal_handshake c direction message random = do
  plain_packet ← wrapping (encode (some message))
  let header = take message_header_len plain_packet
  let payload = drop message_header_len plain_packet
  let aad = header ++ random
  sealed_payload ← wrapping (seal_payload c direction message.sequence aad payload)
  ok (aad ++ sealed_payload)

unfoldable pub encode_aloha_packet : Option Cipher → Option Message → Bytes → Result Bytes
encode_aloha_packet none message client_random = err (fault cipher_nil)
encode_aloha_packet (some c) none client_random = err (fault message_nil)
encode_aloha_packet (some c) (some message) client_random = do
  reject (not (message.message_type == message_type_aloha)) (fault invalid_message_type)
  seal_handshake c client_to_server message client_random

unfoldable pub encode_welcome_packet : Option Cipher → Option Message → Bytes → Result Bytes
encode_welcome_packet none message server_random = err (fault cipher_nil)
encode_welcome_packet (some c) none server_random = err (fault message_nil)
encode_welcome_packet (some c) (some message) server_random = do
  reject (not (message.message_type == message_type_welcome)) (fault invalid_message_type)
  seal_handshake c server_to_client message server_random

-- What both decoders do with the cipher that they made.
unfoldable pub open_handshake : Cipher → Direction → ℕ → Bytes → Result Message
open_handshake c direction sequence packet = do
  let aad = take aloha_packet_prefix_len packet
  let sealed_payload = drop aloha_packet_prefix_len packet
  plain_payload ← wrapping (open_payload c direction sequence aad sealed_payload)
  wrapping (decode (take message_header_len packet ++ plain_payload))

-- The checks of the plain header of an ALOHA packet.
unfoldable pub check_aloha_header : Header → Result (Unit {0})
check_aloha_header header = do
  reject (not (header.version == protocol_version)) (fault invalid_version)
  reject (not (header.message_type == message_type_aloha)) (fault invalid_message_type)
  reject (not (header.peer_id == 0)) (fault peer_id_not_zero)
  reject (header.sequence == 0) (fault sequence_zero)

-- The checks of the plain header of a WELCOME packet.
unfoldable pub check_welcome_header : Header → Result (Unit {0})
check_welcome_header header = do
  reject (not (header.version == protocol_version)) (fault invalid_version)
  reject (not (header.message_type == message_type_welcome)) (fault invalid_message_type)
  reject (header.peer_id == 0) (fault peer_id_zero)
  reject (header.sequence == 0) (fault sequence_zero)

module _ (crypto : Crypto) where
  -- The message and the client's random.
  unfoldable pub decode_aloha_packet : CipherSuite → Bytes → Result (Message × Bytes)
  decode_aloha_packet cs packet = do
    reject (ltb (length packet) (aloha_packet_prefix_len + aead_tag_len)) (fault short_packet)
    header ← wrapping (peek_header packet)
    check_aloha_header header
    let client_random = take handshake_random_len (drop message_header_len packet)
    aloha_cipher ← wrapping (new_aloha_cipher crypto cs client_random)
    message ← open_handshake aloha_cipher client_to_server header.sequence packet
    ok (message, client_random)

  -- The message and the server's random.
  unfoldable pub decode_welcome_packet : CipherSuite → Bytes → Bytes → Result (Message × Bytes)
  decode_welcome_packet cs packet client_random = do
    reject (ltb (length packet) (welcome_packet_prefix_len + aead_tag_len)) (fault short_packet)
    header ← wrapping (peek_header packet)
    check_welcome_header header
    let server_random = take handshake_random_len (drop message_header_len packet)
    welcome_cipher ← wrapping (new_welcome_cipher crypto cs client_random server_random)
    message ← open_handshake welcome_cipher server_to_client header.sequence packet
    ok (message, server_random)
