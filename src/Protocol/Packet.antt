-- ===== src/Protocol/Packet.antt =====
-- internal/protocol/codec.go: DATA and KEEPALIVE packets, `EncodePacket` and `DecodePacket`.
-- The callers pass no nil message. Seal and open get the header as additional data.
pub mod RoundTrip
use elevpn.Prelude.{
  ℕ, Bool, ltb, Option, some, ◌++◌, length, take, drop, Error, fault, short_header, Result, ok, err,
  ◌>>=◌, ◌>>◌, reject, wrapping,
}
use elevpn.Bytes.{Bytes}
use elevpn.Protocol.Message.{message_header_len, Header, Message}
use elevpn.Protocol.Codec.{encode, peek_header, decode}
use elevpn.Protocol.Aead.{Cipher, Direction, seal_payload, open_payload}

unfoldable pub encode_packet : Cipher → Message → Direction → Result Bytes
encode_packet c message direction = do
  packet ← encode (some message)
  let header = take message_header_len packet
  let payload = drop message_header_len packet
  sealed_payload ← seal_payload c direction message.sequence header payload
  ok (header ++ sealed_payload)

unfoldable pub decode_packet : Cipher → Bytes → Direction → Result Message
decode_packet c buf direction = do
  reject (ltb (length buf) message_header_len) (fault short_header)
  let header = take message_header_len buf
  let sealed_payload = drop message_header_len buf
  peek ← wrapping (peek_header header)
  plain_payload ← open_payload c direction peek.sequence header sealed_payload
  decode (header ++ plain_payload)
