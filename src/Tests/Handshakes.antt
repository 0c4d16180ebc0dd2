-- ===== src/Tests/Handshakes.antt =====
-- The properties of the handshake packets at concrete inputs.
use elevpn.Prelude.{◌≡◌, refl, [], ◌∷◌, ◌++◌, length, some, replicate, arith, ok, ◌>>=◌}
use elevpn.Bytes.{Bytes, put_be, be}
use elevpn.Protocol.Message.{
  Message, protocol_version, message_type_aloha, message_type_welcome, new_message,
}
use elevpn.Protocol.Codec.{decode, header_fields, peek_header}
use elevpn.Protocol.Aead.{
  CipherSuite, build_nonce, open_payload, new_aloha_cipher, new_welcome_cipher, new_cipher_from_key,
}
use elevpn.Protocol.Handshake.{
  encode_aloha_packet, encode_welcome_packet, decode_aloha_packet, decode_welcome_packet,
  open_handshake, check_aloha_header, check_welcome_header,
}
use elevpn.Protocol.Handshake.Aloha.{IsAloha, decode_aloha-encode, encode-decode-IsAloha}
use elevpn.Protocol.Handshake.Welcome.{IsWelcome, decode_welcome-encode, encode-decode-IsWelcome}
use elevpn.Tests.ToyCrypto.{toy_crypto, toy_crypto-IsCrypto}
use elevpn.Tests.Protocol.{small_header, all_bytes-IsBytes}

abbrev pub client_random : Bytes
client_random = replicate 16 5

abbrev pub server_random : Bytes
server_random = replicate 16 6

abbrev pub suite : CipherSuite
suite = record { master_key = 11 ∷ [] }

abbrev pub aloha_message : Message
aloha_message = new_message message_type_aloha 0 1 []

abbrev pub aloha_received : Message
aloha_received = record aloha_message {
  header = record aloha_message.header { version = protocol_version };
}

aloha_message-IsAloha : IsAloha aloha_message
aloha_message-IsAloha = record {
  sendable = record {
    header_ok = small_header message_type_aloha 0 1 (omega arith) (omega arith) (omega arith) [];
    type_ok = refl;
    payload_ok = omega arith;
  };
  type_aloha = refl;
  no_peer = refl;
  numbered = omega arith;
}

decode_aloha-encode_example :
    (new_aloha_cipher toy_crypto suite client_random >>= λ c.
    encode_aloha_packet (some c) (some aloha_message) client_random
    >>= decode_aloha_packet toy_crypto suite)
    ≡ ok (aloha_received, client_random)
decode_aloha-encode_example =
    decode_aloha-encode toy_crypto toy_crypto-IsCrypto suite aloha_message client_random
      aloha_message-IsAloha refl

-- The key is the number 11 + 80 in 32 bytes: its checksum is 91. The nonce has the checksum 2, the
-- header 3 and the random 80.
abbrev pub aloha_packet : Bytes
aloha_packet =
    1
    ∷ 1
    ∷ 0
    ∷ 0
    ∷ 0
    ∷ 0
    ∷ 0
    ∷ 0
    ∷ 0
    ∷ 0
    ∷ 0
    ∷ 0
    ∷ 0
    ∷ 0
    ∷ 0
    ∷ 0
    ∷ 0
    ∷ 0
    ∷ 0
    ∷ 1
    ∷ (client_random ++ replicate 16 176)

pub aloha_packet_decodes :
    decode_aloha_packet toy_crypto suite aloha_packet ≡ ok (aloha_received, client_random)
unfolding decode_aloha_packet peek_header header_fields be check_aloha_header new_aloha_cipher
    new_cipher_from_key open_handshake open_payload build_nonce put_be decode
aloha_packet_decodes = refl

encode-decode-IsAloha_example :
    ((new_aloha_cipher toy_crypto suite client_random >>= λ c.
    encode_aloha_packet (some c) (some aloha_received) client_random)
      ≡ ok aloha_packet)
    × IsAloha aloha_received
    × (length client_random ≡ 16)
encode-decode-IsAloha_example =
    encode-decode-IsAloha toy_crypto toy_crypto-IsCrypto suite aloha_packet aloha_received
      client_random (all_bytes-IsBytes aloha_packet refl) aloha_packet_decodes

abbrev pub welcome_message : Message
welcome_message = new_message message_type_welcome 1 1 (10 ∷ 8 ∷ 0 ∷ 2 ∷ 5 ∷ 156 ∷ [])

abbrev pub welcome_received : Message
welcome_received = record welcome_message {
  header = record welcome_message.header { version = protocol_version };
}

welcome_message-IsWelcome : IsWelcome welcome_message
welcome_message-IsWelcome = record {
  sendable = record {
    header_ok =
        small_header message_type_welcome 1 1 (omega arith) (omega arith) (omega arith)
          (10 ∷ 8 ∷ 0 ∷ 2 ∷ 5 ∷ 156 ∷ []);
    type_ok = refl;
    payload_ok = omega arith;
  };
  type_welcome = refl;
  for_peer = omega arith;
  numbered = omega arith;
}

decode_welcome-encode_example :
    (new_welcome_cipher toy_crypto suite client_random server_random >>= λ c.
    encode_welcome_packet (some c) (some welcome_message) server_random >>= λ packet.
    decode_welcome_packet toy_crypto suite packet client_random)
    ≡ ok (welcome_received, server_random)
decode_welcome-encode_example =
    decode_welcome-encode toy_crypto toy_crypto-IsCrypto suite client_random welcome_message
      server_random welcome_message-IsWelcome refl

-- The key is the number 11 + 80 + 96, the nonce has the checksum 3, the header 5, the random 96 and the
-- payload 181.
abbrev pub welcome_packet : Bytes
welcome_packet =
    1
    ∷ 2
    ∷ 0
    ∷ 0
    ∷ 0
    ∷ 0
    ∷ 0
    ∷ 0
    ∷ 0
    ∷ 0
    ∷ 0
    ∷ 1
    ∷ 0
    ∷ 0
    ∷ 0
    ∷ 0
    ∷ 0
    ∷ 0
    ∷ 0
    ∷ 1
    ∷ (server_random ++ (10 ∷ 8 ∷ 0 ∷ 2 ∷ 5 ∷ 156 ∷ replicate 16 216))

pub welcome_packet_decodes :
    decode_welcome_packet toy_crypto suite welcome_packet client_random
    ≡ ok (welcome_received, server_random)
unfolding decode_welcome_packet peek_header header_fields be check_welcome_header new_welcome_cipher
    new_cipher_from_key open_handshake open_payload build_nonce put_be decode
welcome_packet_decodes = refl

encode-decode-IsWelcome_example :
    ((new_welcome_cipher toy_crypto suite client_random server_random >>= λ c.
    encode_welcome_packet (some c) (some welcome_received) server_random)
      ≡ ok welcome_packet)
    × IsWelcome welcome_received
    × (length server_random ≡ 16)
encode-decode-IsWelcome_example =
    encode-decode-IsWelcome toy_crypto toy_crypto-IsCrypto suite client_random welcome_packet
      welcome_received server_random (all_bytes-IsBytes welcome_packet refl) welcome_packet_decodes
