-- ===== src/Protocol/Handshake/Seal.antt =====
-- Sealing and opening a handshake packet, below the checks that ALOHA and WELCOME differ in.
use elevpn.Prelude.{
  ℕ, ◌≤◌, ◌≡◌, refl, sym, ap, ◌∙◌, ◌++◌, append_assoc, length, take, drop, length-append,
  length-take, take-append, drop-append, take-append-drop, take_two, All-take, All-drop, All-append,
  arith, ok, wrapping, >>=-eq-ok, wrapping-eq-ok,
}
use elevpn.Bytes.{Bytes, IsByte, IsBytes}
use elevpn.Protocol.Message.{Header, Message, IsSendable, protocol_version}
use elevpn.Protocol.Codec.{header_bytes, header_fields, decode}
use elevpn.Protocol.Codec.RoundTrip.{
  length-header_bytes, encode_sendable, decode_sendable, header_fields-append,
}
use elevpn.Protocol.Codec.Converse.{decode-ok_iff, encode-decode}
use elevpn.Protocol.Aead.{IsAead, Cipher, Direction, build_nonce, seal_payload, open_payload}
use elevpn.Protocol.Aead.Nonce.{open_payload_sealed, open_payload-eq-ok, open_payload-IsBytes}
use elevpn.Protocol.Handshake.{seal_handshake, open_handshake}

-- The packet of a message: header, random and sealed payload.
abbrev pub handshake_packet : Cipher → Direction → Message → Bytes → Bytes
handshake_packet c d m random =
    (header_bytes m ++ random)
    ++ c.aead.seal (build_nonce d m.sequence) m.payload (header_bytes m ++ random)

pub seal_handshake_sendable :
    (c : Cipher) (d : Direction) (m : Message) (random : Bytes)
    → IsSendable m
    → seal_handshake c d m random ≡ ok (handshake_packet c d m random)
unfolding seal_handshake seal_payload
seal_handshake_sendable c d m random h = rw (encode_sendable m h) (
    rw
      (
        take-append 20 (header_bytes m) m.payload (length-header_bytes m),
        drop-append 20 (header_bytes m) m.payload (length-header_bytes m),
      )
      refl)

-- The parts of a packet that starts with a header and a random.
module _ (hd random rest : Bytes) (lh : length hd ≡ 20) (lr : length random ≡ 16) where
  pub length_prefix : length (hd ++ random) ≡ 36
  length_prefix = omega (arith, length-append hd random)

  pub header_part : take 20 ((hd ++ random) ++ rest) ≡ hd
  header_part = rw (append_assoc hd random rest) (take-append 20 hd (random ++ rest) lh)

  pub random_part : take 16 (drop 20 ((hd ++ random) ++ rest)) ≡ random
  random_part =
      rw (append_assoc hd random rest, drop-append 20 hd (random ++ rest) lh)
        (take-append 16 random rest lr)

  pub aad_part : take 36 ((hd ++ random) ++ rest) ≡ hd ++ random
  aad_part = take-append 36 (hd ++ random) rest length_prefix

  pub sealed_part : drop 36 ((hd ++ random) ++ rest) ≡ rest
  sealed_part = drop-append 36 (hd ++ random) rest length_prefix

module _ (c : Cipher) (good : IsAead c.aead) (d : Direction) where
  pub open_handshake_sealed :
      (m : Message) (random : Bytes)
      → IsSendable m
      → length random ≡ 16
      → open_handshake c d m.sequence (handshake_packet c d m random)
        ≡ ok (record m { header = record m.header { version = protocol_version } })
  unfolding open_handshake
  open_handshake_sealed m random h lr =
      let hd = header_bytes m in
      let lh = length-header_bytes m in
      let rest = c.aead.seal (build_nonce d m.sequence) m.payload (hd ++ random) in
      rw
        (
          aad_part hd random rest lh lr,
          sealed_part hd random rest lh lr,
          header_part hd random rest lh lr,
        )
        (rw (open_payload_sealed c good d m.sequence (hd ++ random) m.payload)
          (rw (decode_sendable m h) refl))

  pub open_handshake-eq-ok :
      (sequence : ℕ) (packet : Bytes) (m : Message)
      → open_handshake c d sequence packet ≡ ok m
      → (plain : Bytes) × (open_payload c d sequence (take 36 packet) (drop 36 packet) ≡ ok plain)
        × (decode (take 20 packet ++ plain) ≡ ok m)
  unfolding open_handshake
  open_handshake-eq-ok sequence packet m e =
      let (plain, p, q) =
        >>=-eq-ok (wrapping (open_payload c d sequence (take 36 packet) (drop 36 packet)))
          (λ plain. wrapping (decode (take 20 packet ++ plain))) e in
      (plain, wrapping-eq-ok _ p, wrapping-eq-ok _ q)

  -- What opens is what sealing the message that comes out makes.
  pub seal-open_handshake :
      (packet : Bytes) (m : Message)
      → IsBytes packet
      → 36 ≤ length packet
      → open_handshake c d (header_fields packet).sequence packet ≡ ok m
      → (seal_handshake c d m (take 16 (drop 20 packet)) ≡ ok packet)
        × IsSendable m
        × (m.header ≡ header_fields packet)
  unfolding seal_handshake
  seal-open_handshake packet m b long e =
      let (plain, p, q) = open_handshake-eq-ok (header_fields packet).sequence packet m e in
      let hd = take 20 packet in
      let size : length hd ≡ 20 = omega (arith, length-take 20 packet) in
      let bytes = All-append IsByte hd plain (All-take IsByte 20 packet b) (
        open_payload-IsBytes c good d _ (take 36 packet) (drop 36 packet) plain
          (All-drop IsByte 36 packet b) p) in
      let (encoded, sendable, _) = encode-decode (hd ++ plain) m bytes q in
      let same : m.header ≡ header_fields packet =
        ap (λ (x : Message). x.header) ((decode-ok_iff (hd ++ plain) m).0 q).1
        ∙ header_fields-append hd plain size
        ∙ sym (header_fields-append hd (drop 20 packet) size)
        ∙ ap header_fields (take-append-drop 20 packet) in
      let sequence = ap (λ (f : Header). f.sequence) same in
      (
        rw encoded (
            rw
              (
                take-append 20 hd plain size,
                drop-append 20 hd plain size,
                take_two 20 16 36 packet refl,
                sequence,
              )
              (rw (open_payload-eq-ok c good d _ (take 36 packet) (drop 36 packet) plain p)
                (ap (λ (x : Bytes). ok x) (take-append-drop 36 packet)))),
        sendable,
        same,
      )
