-- ===== src/Protocol/Handshake/Welcome/Received.antt =====
-- internal/protocol/handshake_codec.go: the type and the size of a WELCOME that a client accepts.
use elevpn.Prelude.{
  ℕ, ◌+◌, ◌≤◌, ◌≡◌, sym, ap, subst, ◌∙◌, ◌++◌, length, take, drop, length-append, length-take,
  length-drop, take-append-drop, arith, ok, ok-injective,
}
use elevpn.Bytes.{Bytes}
use elevpn.Protocol.Message.{Header, Message}
use elevpn.Protocol.Codec.{header_fields}
use elevpn.Protocol.Codec.RoundTrip.{header_fields-append}
use elevpn.Protocol.Codec.Converse.{decode-ok_iff}
use elevpn.Protocol.Aead.{
  Crypto, IsCrypto, IsAead, Cipher, CipherSuite, Direction, server_to_client, build_nonce,
  seal_payload,
}
use elevpn.Protocol.Aead.Nonce.{open_payload-eq-ok, new_welcome_cipher_total}
use elevpn.Protocol.Handshake.{open_handshake, decode_welcome_packet}
use elevpn.Protocol.Handshake.Seal.{open_handshake-eq-ok}
use elevpn.Protocol.Handshake.Welcome.{
  check_welcome_header_iff, decode_welcome-eq-ok, decode_welcome-length,
}

length-seal_payload :
    (c : Cipher) (good : IsAead c.aead) (d : Direction) (sequence : ℕ) (aad plain sealed : Bytes)
    → seal_payload c d sequence aad plain ≡ ok sealed
    → length sealed ≡ length plain + 16
unfolding seal_payload
length-seal_payload c good d sequence aad plain sealed h =
    ap length (sym (ok-injective h)) ∙ good.length_seal (build_nonce d sequence) plain aad

-- The header is that of the packet, and the packet is no longer than a full payload makes it.
pub open_handshake_lem :
    (c : Cipher) (good : IsAead c.aead) (d : Direction) (sequence : ℕ) (packet : Bytes)
    (m : Message)
    → 52 ≤ length packet
    → open_handshake c d sequence packet ≡ ok m
    → (m.header ≡ header_fields packet) × (length packet ≤ 1488)
open_handshake_lem c good d sequence packet m long e =
    let (plain, p, q) = open_handshake-eq-ok c good d sequence packet m e in
    let hd = take 20 packet in
    let size : length hd ≡ 20 = omega (arith, length-take 20 packet) in
    let (is_packet, same) = (decode-ok_iff (hd ++ plain) m).0 q in
    let sealed =
      length-seal_payload c good d sequence (take 36 packet) plain (drop 36 packet)
        (open_payload-eq-ok c good d sequence (take 36 packet) (drop 36 packet) plain p) in
    (
      ap (λ (x : Message). x.header) same
          ∙ header_fields-append hd plain size
          ∙ sym (header_fields-append hd (drop 20 packet) size)
          ∙ ap header_fields (take-append-drop 20 packet),
      omega (
        arith,
        is_packet.short_enough,
        length-append hd plain,
        size,
        sealed,
        length-drop 36 packet,
      ),
    )

module _ (crypto : Crypto) (good : IsCrypto crypto) (cs : CipherSuite) (client_random : Bytes) where
  pub decode_welcome_packet_lem :
      (packet : Bytes) (m : Message) (random : Bytes)
      → decode_welcome_packet crypto cs packet client_random ≡ ok (m, random)
      → (m.message_type ≡ 2) × (length packet ≤ 1488)
  decode_welcome_packet_lem packet m random e =
      let (c, checked, made, opens, rnd) =
        decode_welcome-eq-ok crypto cs client_random packet m random e in
      let long = decode_welcome-length crypto cs client_random packet e in
      let (c', made', laws') =
        new_welcome_cipher_total crypto good cs client_random (take 16 (drop 20 packet)) in
      let laws = subst (λ (x : Cipher). IsAead x.aead) (ok-injective (sym made' ∙ made)) laws' in
      let (same, short) = open_handshake_lem c laws server_to_client _ packet m long opens in
      let (_, t, p, s) = check_welcome_header_iff (header_fields packet) checked in
      (ap (λ (f : Header). f.message_type) same ∙ t, short)
