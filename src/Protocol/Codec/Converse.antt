-- ===== src/Protocol/Codec/Converse.antt =====
-- internal/protocol/codec.go: what `Decode` accepts, and `Encode` after it.
use elevpn.Prelude.{
  ℕ, zero, suc, ◌+◌, ◌^◌, ◌≤◌, ◌<◌, ◌≡◌, ◌↔◌, refl, sym, ap, ap₂, ◌∙◌, true, some, [], ◌∷◌, ◌++◌,
  append_assoc, arith, length, get_or, take, drop, length-drop, length-take, take-append-drop,
  All-take, All-drop, ok,
}
use elevpn.Bytes.{Bytes, IsByte, IsBytes, put_be, be, put_be-be, be-lt}
use elevpn.Protocol.Message.{
  valid, protocol_version, max_payload_size, Message, IsHeader, IsSendable,
}
use elevpn.Protocol.Codec.{header_bytes, header_fields, encode, peek_header, decode}
use elevpn.Protocol.Codec.RoundTrip.{decode_long, encode_sendable}

-- The length and the two bytes of a header that `Decode` checks.
pub record IsPacket (buf : Bytes) : Type 0 where
  pub long_enough : 20 ≤ length buf
  pub short_enough : length buf ≤ 20 + max_payload_size
  pub version_ok : (header_fields buf).version ≡ protocol_version
  pub type_ok : valid (header_fields buf).message_type ≡ true

abbrev pub packet_message : Bytes → Message
packet_message buf = record { header = header_fields buf; payload = drop 20 buf }

decode-eq-ok :
    (buf : Bytes) {m : Message} → decode buf ≡ ok m → IsPacket buf × (m ≡ packet_message buf)
unfolding decode peek_header
decode-eq-ok buf h = ground (arith, length-drop 20 buf)

-- `Decode` accepts exactly the buffers with a whole header, at most 1436 bytes behind it, version 1 and
-- one of the four message types, and then gives the fields of the header and the bytes behind it.
pub decode-ok_iff :
    (buf : Bytes) (m : Message) → (decode buf ≡ ok m) ↔ (IsPacket buf × (m ≡ packet_message buf))
decode-ok_iff buf m = (
  λ h. decode-eq-ok buf h,
  λ (p, e).
      decode_long buf p.long_enough p.short_enough p.version_ok p.type_ok
      ∙ ap (λ (x : Message). ok x) (sym e),
)

eight_bytes : (bs : Bytes) → IsBytes bs → length bs ≡ 8 → put_be 8 (be bs) ≡ bs
eight_bytes bs h e = ap (λ (n : ℕ). put_be n (be bs)) (sym e) ∙ put_be-be bs h

eight_bytes-lt : (bs : Bytes) → IsBytes bs → length bs ≡ 8 → be bs < 2 ^ 64
eight_bytes-lt bs h e = rw e at (be-lt bs h)

drop_nil : (n : ℕ) → drop {A = ℕ} n [] ≡ []
drop_nil zero = refl
drop_nil (suc n) = refl

drop-drop : (n k j : ℕ) (xs : Bytes) → j ≡ k + n → drop n (drop k xs) ≡ drop j xs
drop-drop n zero j xs e = let e' : n ≡ j = omega arith in ap (λ (t : ℕ). drop t xs) e'
drop-drop n (suc k) zero xs e = absurd (omega arith)
drop-drop n (suc k) (suc j) [] e = drop_nil n
drop-drop n (suc k) (suc j) (x ∷ xs) e = drop-drop n k j xs (omega arith)

-- A buffer of 16 bytes at least, cut at 8 and at 16, and put together again.
three_parts : (xs : Bytes) → (take 8 xs ++ take 8 (drop 8 xs)) ++ drop 16 xs ≡ xs
three_parts xs =
    append_assoc (take 8 xs) (take 8 (drop 8 xs)) (drop 16 xs)
    ∙ ap (λ (t : Bytes). take 8 xs ++ (take 8 (drop 8 xs) ++ t)) (sym (drop-drop 8 8 16 xs refl))
    ∙ ap (◌++◌ (take 8 xs)) (take-append-drop 8 (drop 8 xs))
    ∙ take-append-drop 8 xs

-- The header of a buffer with version 1 is made of its first 20 bytes.
header_bytes-header_fields :
    (buf : Bytes)
    → IsBytes buf
    → 20 ≤ length buf
    → (header_fields buf).version ≡ 1
    → header_bytes (packet_message buf) ++ drop 20 buf ≡ buf
unfolding header_fields header_bytes
header_bytes-header_fields (a ∷ b ∷ c ∷ d ∷ rest) h le v =
    let tail : IsBytes rest = h.1.1.1.1 in
    let lp : length (take 8 rest) ≡ 8 = omega (arith, length-take 8 rest) in
    let ls : length (take 8 (drop 8 rest)) ≡ 8 =
      omega (arith, length-take 8 (drop 8 rest), length-drop 8 rest) in
    let p = eight_bytes (take 8 rest) (All-take IsByte 8 rest tail) lp in
    let s =
      eight_bytes (take 8 (drop 8 rest))
        (All-take IsByte 8 (drop 8 rest) (All-drop IsByte 8 rest tail)) ls in
    ap₂ (λ x y. x ∷ b ∷ c ∷ d ∷ y) (sym v)
      (ap₂ (λ x y. (x ++ y) ++ drop 16 rest) p s ∙ three_parts rest)
header_bytes-header_fields [] h le v = absurd (omega arith)
header_bytes-header_fields (a ∷ []) h le v = absurd (omega arith)
header_bytes-header_fields (a ∷ b ∷ []) h le v = absurd (omega arith)
header_bytes-header_fields (a ∷ b ∷ c ∷ []) h le v = absurd (omega arith)

get_or-IsByte : (buf : Bytes) (i : ℕ) → IsBytes buf → IsByte (get_or buf i 0)
get_or-IsByte [] i h = omega arith
get_or-IsByte (b ∷ bs) zero h = h.0
get_or-IsByte (b ∷ bs) (suc i) h = get_or-IsByte bs i h.1

pub header_fields-IsHeader :
    (buf : Bytes) → IsBytes buf → 20 ≤ length buf → IsHeader (header_fields buf)
unfolding header_fields
header_fields-IsHeader buf h le = record {
  version_byte = get_or-IsByte buf 0 h;
  type_byte = get_or-IsByte buf 1 h;
  flags_byte = get_or-IsByte buf 2 h;
  reserved_byte = get_or-IsByte buf 3 h;
  peer_id_u64 =
      eight_bytes-lt (take 8 (drop 4 buf))
        (All-take IsByte 8 (drop 4 buf) (All-drop IsByte 4 buf h))
        (omega (arith, length-take 8 (drop 4 buf), length-drop 4 buf));
  sequence_u64 =
      eight_bytes-lt (take 8 (drop 12 buf))
        (All-take IsByte 8 (drop 12 buf) (All-drop IsByte 12 buf h))
        (omega (arith, length-take 8 (drop 12 buf), length-drop 12 buf));
}

packet_message-IsSendable :
    (buf : Bytes) → IsBytes buf → IsPacket buf → IsSendable (packet_message buf)
packet_message-IsSendable buf h p = record {
  header_ok = header_fields-IsHeader buf h p.long_enough;
  type_ok = p.type_ok;
  payload_ok = omega (arith, length-drop 20 buf, p.short_enough);
}

-- A buffer of bytes that `Decode` accepts is the very packet that `Encode` makes of the message, which
-- has the version of the protocol and fields in the range of their types.
pub encode-decode :
    (buf : Bytes) (m : Message)
    → IsBytes buf
    → decode buf ≡ ok m
    → (encode (some m) ≡ ok buf) × IsSendable m × (m.version ≡ protocol_version)
encode-decode buf m h d =
    let (p, e) = decode-eq-ok buf d in
    let sendable = packet_message-IsSendable buf h p in
    rw e (
      encode_sendable (packet_message buf) sendable
          ∙ ap (λ (x : Bytes). ok x) (header_bytes-header_fields buf h p.long_enough p.version_ok),
      sendable,
      p.version_ok,
    )
