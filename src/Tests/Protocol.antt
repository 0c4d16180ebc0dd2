-- ===== src/Tests/Protocol.antt =====
-- The properties of the protocol at concrete inputs.
use elevpn.Prelude.{
  ℕ, ◌+◌, ◌≤◌, ◌<◌, ◌^◌, ◌≡◌, ◌≢◌, ◌↔◌, refl, Bool, true, false, ◌&&◌, ltb, ltb→lt, Bool-cases, inl,
  inr, List, [], ◌∷◌, ◌++◌, length, some, replicate, arith, ok, err, ◌>>=◌, wrap, sentinel,
  duplicate_sequence,
}
use elevpn.Bytes.{Bytes, IsBytes, put_be, be}
use elevpn.Protocol.ReplayWindow.{accept, shl64}
use elevpn.Protocol.ReplayWindow.History.{member}
use elevpn.Protocol.ReplayWindow.Runs.{
  IsSound, new_receiver, receive_all, top, receive_all-IsSound, accept-ok_iff,
}
use elevpn.Protocol.Message.{
  Message, IsHeader, IsSendable, protocol_version, message_type_data, new_message,
  outer_ipv4_header_len, udp_header_len, default_outer_mtu,
}
use elevpn.Protocol.Codec.{header_bytes, encode, decode, header_fields, peek_header}
use elevpn.Protocol.Codec.RoundTrip.{decode-encode}
use elevpn.Protocol.Codec.Converse.{IsPacket, packet_message, decode-ok_iff, encode-decode}
use elevpn.Protocol.Payload.{v4, WelcomePayload, decode_welcome_payload}
use elevpn.Protocol.Aead.{Cipher, client_to_server, build_nonce, seal_payload, open_payload}
use elevpn.Protocol.Aead.Nonce.{build_nonce_injective}
use elevpn.Protocol.Packet.{encode_packet, decode_packet}
use elevpn.Protocol.Packet.RoundTrip.{
  decode_packet-encode, encode-decode_packet, length-encode_packet,
}
use elevpn.Tests.ToyCrypto.{toy_aead, toy_aead-IsAead}

abbrev some_sequences : List ℕ
some_sequences = 5 ∷ 70 ∷ 3 ∷ 68 ∷ 70 ∷ []

accept-ok_iff_example : ((accept (receive_all new_receiver some_sequences).window 69).1 ≡ ok tt) ↔ (
    (0 < 69)
    × (top (receive_all new_receiver some_sequences).accepted < 69 + 64)
    × (member 69 (receive_all new_receiver some_sequences).accepted ≡ false))
accept-ok_iff_example = accept-ok_iff some_sequences 69

receive_all-IsSound_example : IsSound (receive_all new_receiver some_sequences)
receive_all-IsSound_example = receive_all-IsSound some_sequences

refused_again :
    (accept (record { highest = 70; bitmap = 5 }) 68).1 ≡ err (wrap (sentinel duplicate_sequence))
unfolding accept shl64
refused_again = refl

abbrev pub data_message : Message
data_message = new_message message_type_data 7 9 (69 ∷ 0 ∷ 1 ∷ [])

-- The same message as it arrives.
abbrev pub data_received : Message
data_received = record data_message {
  header = record data_message.header { version = protocol_version };
}

pub small_header :
    (t i s : ℕ)
    → t < 256
    → i < 2 ^ 64
    → s < 2 ^ 64
    → (p : Bytes) → IsHeader (new_message t i s p).header
small_header t i s a b c p = record {
  version_byte = omega arith;
  type_byte = a;
  flags_byte = omega arith;
  reserved_byte = omega arith;
  peer_id_u64 = b;
  sequence_u64 = c;
}

data_message-IsSendable : IsSendable data_message
data_message-IsSendable = record {
  header_ok =
      small_header message_type_data 7 9 (omega arith) (omega arith) (omega arith)
        (69 ∷ 0 ∷ 1 ∷ []);
  type_ok = refl;
  payload_ok = omega arith;
}

decode-encode_example : (encode (some data_message) >>= decode) ≡ ok data_received
decode-encode_example = decode-encode data_message data_message-IsSendable

abbrev data_packet : Bytes
data_packet =
    1 ∷ 3 ∷ 0 ∷ 0 ∷ 0 ∷ 0 ∷ 0 ∷ 0 ∷ 0 ∷ 0 ∷ 0 ∷ 7 ∷ 0 ∷ 0 ∷ 0 ∷ 0 ∷ 0 ∷ 0 ∷ 0 ∷ 9 ∷ 69 ∷ 0 ∷ 1 ∷ []

-- Short of a proof for each byte, a test.
abbrev all_bytes : Bytes → Bool
all_bytes [] = true
all_bytes (b ∷ bs) = ltb b 256 && all_bytes bs

pub all_bytes-IsBytes : (bs : Bytes) → all_bytes bs ≡ true → IsBytes bs
all_bytes-IsBytes [] h = tt
all_bytes-IsBytes (b ∷ bs) h = elim (Bool-cases (ltb b 256)) [
  | inl t ↦ (ltb→lt b 256 t, all_bytes-IsBytes bs (rw t at h))
  | inr f ↦ absurd (false≢true (rw f at h))
]
  where
    false≢true : false ≢ true
    false≢true e = cc

data_packet-IsBytes : IsBytes data_packet
data_packet-IsBytes = all_bytes-IsBytes data_packet refl

decode-ok_iff_example :
    (decode data_packet ≡ ok data_received)
    ↔ (IsPacket data_packet × (data_received ≡ packet_message data_packet))
decode-ok_iff_example = decode-ok_iff data_packet data_received

data_packet_decodes : decode data_packet ≡ ok data_received
unfolding decode peek_header header_fields be
data_packet_decodes = refl

encode-decode_example :
    (encode (some data_received) ≡ ok data_packet)
    × IsSendable data_received
    × (data_received.version ≡ protocol_version)
encode-decode_example =
    encode-decode data_packet data_received data_packet-IsBytes data_packet_decodes

abbrev pub zero_mtu : WelcomePayload
zero_mtu = record { tunnel_ip = v4 (10 ∷ 8 ∷ 0 ∷ 2 ∷ []); mtu = 0 }

zero_mtu_decodes : decode_welcome_payload (10 ∷ 8 ∷ 0 ∷ 2 ∷ 0 ∷ 0 ∷ []) ≡ ok zero_mtu
unfolding decode_welcome_payload be
zero_mtu_decodes = refl

build_nonce_injective_example : (client_to_server ≡ client_to_server) × (◌≡◌ {A = ℕ} 9 9)
build_nonce_injective_example =
    build_nonce_injective client_to_server client_to_server 9 9 (omega arith) (omega arith) refl

abbrev pub toy_cipher : Cipher
toy_cipher = record { aead = toy_aead (3 ∷ []) }

decode_packet-encode_example :
    (encode_packet toy_cipher data_message client_to_server >>= λ packet.
    decode_packet toy_cipher packet client_to_server)
    ≡ ok data_received
decode_packet-encode_example =
    decode_packet-encode toy_cipher (toy_aead-IsAead (3 ∷ [])) client_to_server data_message
      data_message-IsSendable

-- The header, the payload and the toy tag: 3 + (1 + 9) + (1 + 3 + 7 + 9) + 70.
abbrev pub sealed_packet : Bytes
sealed_packet = data_packet ++ replicate 16 103

sealed_packet-IsBytes : IsBytes sealed_packet
sealed_packet-IsBytes = all_bytes-IsBytes sealed_packet refl

sealed_packet_decodes : decode_packet toy_cipher sealed_packet client_to_server ≡ ok data_received
unfolding decode_packet open_payload build_nonce put_be decode peek_header header_fields be
sealed_packet_decodes = refl

encode-decode_packet_example :
    (encode_packet toy_cipher data_received client_to_server ≡ ok sealed_packet)
    × IsSendable data_received
encode-decode_packet_example =
    encode-decode_packet toy_cipher (toy_aead-IsAead (3 ∷ [])) client_to_server sealed_packet
      data_received sealed_packet-IsBytes sealed_packet_decodes

data_message_encodes : encode_packet toy_cipher data_message client_to_server ≡ ok sealed_packet
unfolding encode_packet seal_payload build_nonce put_be encode header_bytes
data_message_encodes = refl

length-encode_packet_example :
    (length sealed_packet ≡ length data_message.payload + 36)
    × (outer_ipv4_header_len + udp_header_len + length sealed_packet ≤ default_outer_mtu)
length-encode_packet_example =
    length-encode_packet toy_cipher (toy_aead-IsAead (3 ∷ [])) client_to_server data_message
      sealed_packet data_message_encodes
