-- ===== src/Protocol/Codec.antt =====
-- internal/protocol/codec.go: plain packets, `Encode`, `Decode` and `PeekHeader`.
-- `make` followed by `copy` into each part of the new buffer is the concatenation of the parts.
pub mod RoundTrip
pub mod Converse
use elevpn.Prelude.{
  ℕ, Bool, not, ltb, ◌==◌, Option, none, some, ◌∷◌, ◌++◌, length, get_or, take, drop, Error, fault,
  message_nil, invalid_message_type, invalid_payload_size, short_header, payload_too_large,
  invalid_version, unknown_message_type, Result, ok, err, ◌>>=◌, ◌>>◌, reject, wrapping,
}
use elevpn.Bytes.{Bytes, put_be, be}
use elevpn.Protocol.Message.{
  valid, protocol_version, message_header_len, max_payload_size, Header, Message,
}

-- `buf[:MessageHeaderLen]` as `Encode` fills it. The version of the message is not used.
unfoldable pub header_bytes : Message → Bytes
header_bytes m =
    protocol_version
    ∷ m.message_type
    ∷ m.flags
    ∷ m.reserved
    ∷ (put_be 8 m.peer_id ++ put_be 8 m.sequence)

unfoldable pub encode : Option Message → Result Bytes
encode none = err (fault message_nil)
encode (some m) = do
  reject (not (valid m.message_type)) (fault invalid_message_type)
  reject (ltb max_payload_size (length m.payload)) (fault invalid_payload_size)
  ok (header_bytes m ++ m.payload)

-- The fields of a buffer that holds a header at least: bytes 0 to 3, `buf[4:12]` and `buf[12:20]`.
unfoldable pub header_fields : Bytes → Header
header_fields buf = record {
  version = get_or buf 0 0;
  message_type = get_or buf 1 0;
  flags = get_or buf 2 0;
  reserved = get_or buf 3 0;
  peer_id = be (take 8 (drop 4 buf));
  sequence = be (take 8 (drop 12 buf));
}

unfoldable pub peek_header : Bytes → Result Header
peek_header buf = do
  reject (ltb (length buf) message_header_len) (fault short_header)
  ok (header_fields buf)

unfoldable pub decode : Bytes → Result Message
unfolding peek_header
decode buf = do
  reject (ltb (length buf) message_header_len) (fault short_header)
  header ← wrapping (peek_header buf)
  let payload = drop message_header_len buf
  reject (ltb max_payload_size (length payload)) (fault payload_too_large)
  reject (not (header.version == protocol_version)) (fault invalid_version)
  reject (not (valid header.message_type)) (fault unknown_message_type)
  ok (record { header = header; payload = payload })
