-- ===== src/Protocol/Handshake/Aloha/Received.antt =====
-- internal/protocol/handshake_codec.go: the header of an ALOHA that a server accepts.
use elevpn.Prelude.{◌<◌, ◌≡◌, sym, ap, subst, ◌∙◌, take, drop, arith, ok, ok-injective}
use elevpn.Bytes.{Bytes}
use elevpn.Protocol.Message.{Header, Message}
use elevpn.Protocol.Codec.{peek_header, header_fields}
use elevpn.Protocol.Codec.RoundTrip.{peek_header_long}
use elevpn.Protocol.Aead.{Crypto, IsCrypto, IsAead, Cipher, CipherSuite, client_to_server}
use elevpn.Protocol.Aead.Nonce.{new_aloha_cipher_total}
use elevpn.Protocol.Handshake.{decode_aloha_packet}
use elevpn.Protocol.Handshake.Aloha.{
  check_aloha_header_iff, decode_aloha-eq-ok, decode_aloha-length,
}
use elevpn.Protocol.Handshake.Welcome.Received.{open_handshake_lem}

module _ (crypto : Crypto) (good : IsCrypto crypto) (cs : CipherSuite) where
  -- The type in the plain header is that of an ALOHA, and the message has a sequence above 0.
  pub decode_aloha_packet_lem :
      (packet : Bytes) (m : Message) (random : Bytes)
      → decode_aloha_packet crypto cs packet ≡ ok (m, random)
      → (peek_header packet ≡ ok (header_fields packet))
        × ((header_fields packet).message_type ≡ 1)
        × (0 < m.sequence)
  decode_aloha_packet_lem packet m random e =
      let (c, checked, made, opens, _) = decode_aloha-eq-ok crypto cs packet m random e in
      let long = decode_aloha-length crypto cs packet e in
      let (c', made', laws') = new_aloha_cipher_total crypto good cs (take 16 (drop 20 packet)) in
      let laws = subst (λ (x : Cipher). IsAead x.aead) (ok-injective (sym made' ∙ made)) laws' in
      let (same, _) = open_handshake_lem c laws client_to_server _ packet m long opens in
      let (_, t, p, s) = check_aloha_header_iff (header_fields packet) checked in
      (
        peek_header_long packet (omega arith),
        t,
        omega (arith, s, ap (λ (f : Header). f.sequence) same),
      )
