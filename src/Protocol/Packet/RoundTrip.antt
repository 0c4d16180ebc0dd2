-- ===== src/Protocol/Packet/RoundTrip.antt =====
-- internal/protocol/codec.go: `DecodePacket` after `EncodePacket`, and the other way round.
use elevpn.Prelude.{
  fault, short_header, ◌+◌, ◌≤◌, ◌<◌, ◌≡◌, refl, sym, ap, ◌∙◌, ltb, true, false, ◌++◌, append-nil,
  [], length, take, drop, length-append, length-take, take-append, drop-append, take-append-drop,
  All-take, All-drop, All-append, arith, some, Result, ok, err, ◌>>=◌, >>=-eq-ok, err-ne-ok,
  ok-injective, dec_lt,
}
use elevpn.Bytes.{Bytes, IsByte, IsBytes}
use elevpn.Protocol.Message.{
  Header, Message, IsHeader, IsSendable, protocol_version, max_payload_size, default_outer_mtu,
  outer_ipv4_header_len, udp_header_len,
}
use elevpn.Protocol.Codec.{header_bytes, header_fields, encode, peek_header, decode}
use elevpn.Protocol.Codec.RoundTrip.{
  length-header_bytes, peek_header_long, header_fields-header_bytes, encode_sendable, encode-eq-ok,
  decode_sendable, header_fields-append,
}
use elevpn.Protocol.Codec.Converse.{decode-ok_iff, encode-decode}
use elevpn.Protocol.Aead.{IsAead, Cipher, Direction, build_nonce, seal_payload, open_payload}
use elevpn.Protocol.Aead.Nonce.{open_payload_sealed, open_payload-eq-ok, open_payload-IsBytes}
use elevpn.Protocol.Packet.{encode_packet, decode_packet}

-- The packet of a message: the plain header, and the sealed payload behind it.
abbrev pub sealed_packet : Cipher → Message → Direction → Bytes
sealed_packet c m d =
    header_bytes m ++ c.aead.seal (build_nonce d m.sequence) m.payload (header_bytes m)

pub encode_packet_sendable :
    (c : Cipher) (m : Message) (d : Direction)
    → IsSendable m
    → encode_packet c m d ≡ ok (sealed_packet c m d)
unfolding encode_packet seal_payload
encode_packet_sendable c m d h = rw (encode_sendable m h) (
    rw
      (
        take-append 20 (header_bytes m) m.payload (length-header_bytes m),
        drop-append 20 (header_bytes m) m.payload (length-header_bytes m),
      )
      refl)

peek_header-header_bytes :
    (m : Message)
    → IsHeader m.header
    → peek_header (header_bytes m) ≡ ok (record m.header { version = protocol_version })
peek_header-header_bytes m h =
    peek_header_long (header_bytes m) (omega (arith, length-header_bytes m))
    ∙ ap (λ (b : Bytes). ok (header_fields b)) (sym (append-nil (header_bytes m)))
    ∙ ap (λ (f : Header). ok f) (header_fields-header_bytes m [] h)

-- After the header is read, `DecodePacket` opens the payload and decodes the plain packet.
abbrev open_and_decode : Cipher → Direction → Bytes → Bytes → Result Message
open_and_decode c d hd sealed =
    open_payload c d (header_fields hd).sequence hd sealed >>= λ plain. decode (hd ++ plain)

decode_packet_long :
    (c : Cipher) (d : Direction) (buf : Bytes)
    → 20 ≤ length buf
    → decode_packet c buf d ≡ open_and_decode c d (take 20 buf) (drop 20 buf)
unfolding decode_packet
decode_packet_long c d buf long =
    let test : ltb (length buf) 20 ≡ false = ground arith in
    rw test (rw (peek_header_long (take 20 buf) (omega (arith, length-take 20 buf))) refl)

decode_packet_short :
    (c : Cipher) (d : Direction) (buf : Bytes)
    → length buf < 20
    → decode_packet c buf d ≡ err (fault short_header)
unfolding decode_packet
decode_packet_short c d buf short =
    let test : ltb (length buf) 20 ≡ true = ground arith in rw test refl

decode_packet-length :
    (c : Cipher) (d : Direction) (buf : Bytes) (m : Message)
    → decode_packet c buf d ≡ ok m
    → 20 ≤ length buf
decode_packet-length c d buf m e = elim (dec_lt (length buf) 20) [
  | yes short ↦ absurd (err-ne-ok (sym (decode_packet_short c d buf short) ∙ e))
  | no long ↦ omega arith
]

decode_packet-eq-ok :
    (c : Cipher) (d : Direction) (buf : Bytes) (m : Message)
    → decode_packet c buf d ≡ ok m
    → (plain : Bytes) × (open_payload c d
          (header_fields (take 20 buf)).sequence
          (take 20 buf)
          (drop 20 buf)
        ≡ ok plain)
      × (decode (take 20 buf ++ plain) ≡ ok m)
decode_packet-eq-ok c d buf m e =
    >>=-eq-ok (open_payload c d (header_fields (take 20 buf)).sequence (take 20 buf) (drop 20 buf))
      (λ plain. decode (take 20 buf ++ plain))
      (sym (decode_packet_long c d buf (decode_packet-length c d buf m e)) ∙ e)

module _ (c : Cipher) (good : IsAead c.aead) (d : Direction) where
  -- Under an AEAD with its documented properties, a message that `Encode` accepts goes through
  -- `EncodePacket` and `DecodePacket` of the same cipher and direction, and comes back with the
  -- protocol's version.
  pub decode_packet-encode :
      (m : Message)
      → IsSendable m
      → (encode_packet c m d >>= λ packet. decode_packet c packet d)
        ≡ ok (record m { header = record m.header { version = protocol_version } })
  unfolding decode_packet
  decode_packet-encode m h =
      let hb = header_bytes m in
      let lh = length-header_bytes m in
      let sealed = c.aead.seal (build_nonce d m.sequence) m.payload hb in
      let long : ltb (length (hb ++ sealed)) 20 ≡ false =
        ground (arith, length-append hb sealed, lh) in
      rw (encode_packet_sendable c m d h) (
        rw (long, take-append 20 hb sealed lh, drop-append 20 hb sealed lh)
          (rw (peek_header-header_bytes m h.header_ok)
            (rw (open_payload_sealed c good d m.sequence hb m.payload) (decode_sendable m h))))

  -- Under such an AEAD, a buffer of bytes that `DecodePacket` accepts is the very packet that `EncodePacket` makes of the
  -- message that comes out, and that message is one that `Encode` accepts.
  pub encode-decode_packet :
      (buf : Bytes) (m : Message)
      → IsBytes buf
      → decode_packet c buf d ≡ ok m
      → (encode_packet c m d ≡ ok buf) × IsSendable m
  unfolding encode_packet
  encode-decode_packet buf m b e =
      let long = decode_packet-length c d buf m e in
      let (plain, p, q) = decode_packet-eq-ok c d buf m e in
      let hd = take 20 buf in
      let size : length hd ≡ 20 = omega (arith, length-take 20 buf) in
      let bytes =
        All-append IsByte hd plain (All-take IsByte 20 buf b)
          (open_payload-IsBytes c good d _ hd (drop 20 buf) plain (All-drop IsByte 20 buf b) p) in
      let (encoded, sendable, _) = encode-decode (hd ++ plain) m bytes q in
      let same : m.sequence ≡ (header_fields hd).sequence =
        ap (λ (x : Message). x.sequence) ((decode-ok_iff (hd ++ plain) m).0 q).1
        ∙ ap (λ (f : Header). f.sequence) (header_fields-append hd plain size) in
      (
        rw encoded (
            rw (take-append 20 hd plain size, drop-append 20 hd plain size, same)
              (rw (open_payload-eq-ok c good d _ hd (drop 20 buf) plain p)
                (ap (λ (x : Bytes). ok x) (take-append-drop 20 buf)))),
        sendable,
      )

  encode_packet-eq-ok :
      (m : Message) (packet : Bytes)
      → encode_packet c m d ≡ ok packet
      → (packet ≡ sealed_packet c m d) × (length m.payload ≤ max_payload_size)
  unfolding encode_packet seal_payload
  encode_packet-eq-ok m packet e =
      let (plain, p, q) = >>=-eq-ok (encode (some m)) _ e in
      let (parts, _, fits) = encode-eq-ok m p in
      let lh = length-header_bytes m in
      (
        sym (
            ok-injective (
              rw
                (
                  parts,
                  take-append 20 (header_bytes m) m.payload lh,
                  drop-append 20 (header_bytes m) m.payload lh,
                )
                at q)),
        fits,
      )

  -- Under such an AEAD, a packet is 36 bytes longer than its payload, so with the IPv4 and UDP headers outside it never
  -- passes the outer MTU of 1500 bytes.
  pub length-encode_packet :
      (m : Message) (packet : Bytes)
      → encode_packet c m d ≡ ok packet
      → (length packet ≡ length m.payload + 36)
        × (outer_ipv4_header_len + udp_header_len + length packet ≤ default_outer_mtu)
  length-encode_packet m packet e =
      let (parts, fits) = encode_packet-eq-ok m packet e in
      let sealed = c.aead.seal (build_nonce d m.sequence) m.payload (header_bytes m) in
      let size : length packet ≡ length m.payload + 36 = omega (
        arith,
        ap length parts,
        length-append (header_bytes m) sealed,
        length-header_bytes m,
        good.length_seal (build_nonce d m.sequence) m.payload (header_bytes m),
      ) in
      (size, omega arith)
