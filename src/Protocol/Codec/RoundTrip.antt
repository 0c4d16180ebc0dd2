-- ===== src/Protocol/Codec/RoundTrip.antt =====
-- internal/protocol/codec.go: `Decode` after `Encode`.
use elevpn.Prelude.{
  ℕ, ◌≤◌, ◌<◌, ◌≡◌, ap, ap₂, ◌∙◌, true, some, ◌++◌, append_assoc, arith, length, get_or, take, drop,
  length-append, length-drop, take-append, drop-append, take-append_front, drop-append_front,
  get_or-append_front, ok, ◌>>=◌, ◌+◌,
}
use elevpn.Bytes.{Bytes, put_be, be, length-put_be, be-put_be_fits}
use elevpn.Protocol.Message.{
  valid, protocol_version, max_payload_size, Header, Message, IsHeader, IsSendable,
}
use elevpn.Protocol.Codec.{header_bytes, encode, header_fields, peek_header, decode}

pub length-header_bytes : (m : Message) → length (header_bytes m) ≡ 20
unfolding header_bytes
length-header_bytes m = omega (
  arith,
  length-append (put_be 8 m.peer_id) (put_be 8 m.sequence),
  length-put_be 8 m.peer_id,
  length-put_be 8 m.sequence,
)

pub peek_header_long : (buf : Bytes) → 20 ≤ length buf → peek_header buf ≡ ok (header_fields buf)
unfolding peek_header
peek_header_long buf h = ground arith

-- Where the four checks pass, `Decode` gives the fields and the bytes behind them.
pub decode_long :
    (buf : Bytes)
    → 20 ≤ length buf
    → length buf ≤ 20 + max_payload_size
    → (header_fields buf).version ≡ 1
    → valid (header_fields buf).message_type ≡ true
    → decode buf ≡ ok (record { header = header_fields buf; payload = drop 20 buf })
unfolding decode
decode_long buf lo hi v t = ground (arith, length-drop 20 buf)

peer_id_part : (p s rest : Bytes) → length p ≡ 8 → take 8 ((p ++ s) ++ rest) ≡ p
peer_id_part p s rest h = rw (append_assoc p s rest) (take-append 8 p (s ++ rest) h)

sequence_part :
    (p s rest : Bytes) → length p ≡ 8 → length s ≡ 8 → take 8 (drop 8 ((p ++ s) ++ rest)) ≡ s
sequence_part p s rest h k =
    rw (append_assoc p s rest, drop-append 8 p (s ++ rest) h) (take-append 8 s rest k)

-- `PeekHeader` reads back the header that `Encode` wrote, with the protocol's version.
pub header_fields-header_bytes :
    (m : Message) (rest : Bytes)
    → IsHeader m.header
    → header_fields (header_bytes m ++ rest) ≡ record m.header { version = protocol_version }
unfolding header_fields header_bytes
header_fields-header_bytes m rest h =
    let p = put_be 8 m.peer_id in
    let s = put_be 8 m.sequence in
    let lp = length-put_be 8 m.peer_id in
    let ls = length-put_be 8 m.sequence in
    let with_ids : ℕ → ℕ → Header =
      λ i q. record m.header { version = protocol_version; peer_id = i; sequence = q } in
    ap₂ with_ids (ap be (peer_id_part p s rest lp) ∙ be-put_be_fits 8 m.peer_id h.peer_id_u64)
      (ap be (sequence_part p s rest lp ls) ∙ be-put_be_fits 8 m.sequence h.sequence_u64)

pub encode_sendable :
    (m : Message) → IsSendable m → encode (some m) ≡ ok (header_bytes m ++ m.payload)
unfolding encode
encode_sendable m h = ground arith

-- The fields of a whole header do not depend on what follows it.
pub header_fields-append :
    (hd rest : Bytes) → length hd ≡ 20 → header_fields (hd ++ rest) ≡ header_fields hd
unfolding header_fields
header_fields-append hd rest h =
    let slice : (k : ℕ) → k ≤ 12 → take 8 (drop k (hd ++ rest)) ≡ take 8 (drop k hd) = λ k le.
      ap (take 8) (drop-append_front k hd rest (omega arith))
      ∙ take-append_front 8 (drop k hd) rest (omega (arith, length-drop k hd)) in
    let byte : (i : ℕ) → i < 4 → get_or (hd ++ rest) i 0 ≡ get_or hd i 0 =
      λ i lt. get_or-append_front hd rest i 0 (omega arith) in
    λ i. record {
      version = byte 0 (omega arith) i;
      message_type = byte 1 (omega arith) i;
      flags = byte 2 (omega arith) i;
      reserved = byte 3 (omega arith) i;
      peer_id = be (slice 4 (omega arith) i);
      sequence = be (slice 12 (omega arith) i);
    }

-- What `Encode` gives, and when.
pub encode-eq-ok :
    (m : Message) {p : Bytes}
    → encode (some m) ≡ ok p
    → (p ≡ header_bytes m ++ m.payload)
      × (valid m.message_type ≡ true)
      × (length m.payload ≤ max_payload_size)
unfolding encode
encode-eq-ok m e = ground arith

pub decode_sendable :
    (m : Message)
    → IsSendable m
    → decode (header_bytes m ++ m.payload)
      ≡ ok (record m { header = record m.header { version = protocol_version } })
decode_sendable m h =
    let packet = header_bytes m ++ m.payload in
    let size = length-append (header_bytes m) m.payload in
    let fields = header_fields-header_bytes m m.payload h.header_ok in
    decode_long packet (omega (arith, size, length-header_bytes m))
      (omega (arith, size, length-header_bytes m, h.payload_ok))
      (ap (λ (f : Header). f.version) fields)
      (ap (λ (f : Header). valid f.message_type) fields ∙ h.type_ok)
    ∙ ap₂ (λ f b. ok (record { header = f; payload = b })) fields
        (drop-append 20 (header_bytes m) m.payload (length-header_bytes m))

-- Every message that `Encode` accepts comes back from `Decode`, with the protocol's version.
pub decode-encode :
    (m : Message)
    → IsSendable m
    → (encode (some m) >>= decode)
      ≡ ok (record m { header = record m.header { version = protocol_version } })
decode-encode m h = rw (encode_sendable m h) (decode_sendable m h)
