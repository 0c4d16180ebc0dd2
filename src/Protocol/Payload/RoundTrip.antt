-- ===== src/Protocol/Payload/RoundTrip.antt =====
-- internal/protocol/payload.go: decoding after encoding, and the other way round.
use elevpn.Prelude.{
  ℕ, ◌^◌, ◌<◌, ◌≡◌, ◌⊎◌, sym, ap, ◌∙◌, arith, ◌++◌, [], append-nil, length, take, drop,
  length-append, length-take, length-drop, take-append, drop-append, take-append-drop, All-drop, ok,
  err, ◌>>=◌, >>=-eq-ok, fault, mtu_zero, inl, inr, Bool-cases, ==_iff, ◌==◌, if◌then◌else◌,
  length-zero, All-take,
}
use elevpn.Bytes.{Bytes, IsByte, IsBytes, put_be, be, length-put_be, be-put_be_fits, put_be-be}
use elevpn.Protocol.Payload.{v4, WelcomePayload, encode_welcome_payload, decode_welcome_payload}

-- An IPv4 address and an MTU that fits in a uint16 and is not 0 come back from the encoded payload.
pub decode_welcome_payload-encode :
    (ip : Bytes) (mtu : ℕ)
    → length ip ≡ 4
    → 0 < mtu
    → mtu < 2 ^ 16
    → (encode_welcome_payload (record { tunnel_ip = v4 ip; mtu = mtu }) >>= decode_welcome_payload)
      ≡ ok (record { tunnel_ip = v4 ip; mtu = mtu })
unfolding encode_welcome_payload decode_welcome_payload
decode_welcome_payload-encode ip mtu four pos fits =
    let size : length (ip ++ put_be 2 mtu) ≡ 6 =
      omega (arith, length-append ip (put_be 2 mtu), length-put_be 2 mtu) in
    let back : take 2 (put_be 2 mtu) ≡ put_be 2 mtu =
      ap (take 2) (sym (append-nil (put_be 2 mtu)))
      ∙ take-append 2 (put_be 2 mtu) [] (length-put_be 2 mtu) in
    ground (
      arith,
      size,
      take-append 4 ip (put_be 2 mtu) four,
      drop-append 4 ip (put_be 2 mtu) four,
      back,
      be-put_be_fits 2 mtu fits,
    )

two_bytes : (bs : Bytes) → IsBytes bs → length bs ≡ 2 → put_be 2 (be bs) ≡ bs
two_bytes bs h e = ap (λ (n : ℕ). put_be n (be bs)) (sym e) ∙ put_be-be bs h

welcome_parts : Bytes → WelcomePayload
welcome_parts buf = record { tunnel_ip = v4 (take 4 buf); mtu = be (take 2 (drop 4 buf)) }

decode_welcome_payload-eq-ok :
    (buf : Bytes) {p : WelcomePayload}
    → decode_welcome_payload buf ≡ ok p
    → (length buf ≡ 6) × (p ≡ welcome_parts buf)
unfolding decode_welcome_payload welcome_parts
decode_welcome_payload-eq-ok buf e = ground arith

welcome_bytes :
    (buf : Bytes)
    → IsBytes buf
    → length buf ≡ 6
    → take 4 buf ++ put_be 2 (be (take 2 (drop 4 buf))) ≡ buf
welcome_bytes buf h six =
    let rest : length (take 2 (drop 4 buf)) ≡ 2 =
      omega (arith, length-take 2 (drop 4 buf), length-drop 4 buf) in
    let none_left : drop 2 (drop 4 buf) ≡ [] =
      length-zero _ (omega (arith, length-drop 2 (drop 4 buf), length-drop 4 buf)) in
    let whole : take 2 (drop 4 buf) ≡ drop 4 buf =
      sym (append-nil _)
      ∙ ap (◌++◌ (take 2 (drop 4 buf))) (sym none_left)
      ∙ take-append-drop 2 (drop 4 buf) in
    ap (◌++◌ (take 4 buf))
      (two_bytes _ (All-take IsByte 2 (drop 4 buf) (All-drop IsByte 4 buf h)) rest ∙ whole)
    ∙ take-append-drop 4 buf

encode_parts :
    (buf : Bytes)
    → encode_welcome_payload (welcome_parts buf) ≡ (
        if (welcome_parts buf).mtu == 0
        then err (fault mtu_zero)
        else ok (take 4 buf ++ put_be 2 (be (take 2 (drop 4 buf)))))
unfolding encode_welcome_payload welcome_parts
encode_parts buf = ground arith

-- A payload of six bytes is decoded always, and encoding the result gives the same bytes, unless the
-- MTU in it is 0, which `EncodeWelcomePayload` refuses.
pub encode-decode_welcome_payload :
    (buf : Bytes) (p : WelcomePayload)
    → IsBytes buf
    → decode_welcome_payload buf ≡ ok p
    → ((0 < p.mtu) × (encode_welcome_payload p ≡ ok buf))
      ⊎ ((p.mtu ≡ 0) × (encode_welcome_payload p ≡ err (fault mtu_zero)))
encode-decode_welcome_payload buf p h e =
    let (six, parts) = decode_welcome_payload-eq-ok buf e in
    let encoded = encode_parts buf in
    let same = ap (λ (b : Bytes). ok b) (welcome_bytes buf h six) in
    rw parts (elim (Bool-cases ((welcome_parts buf).mtu == 0)) [
      | inl zero_mtu ↦ inr ((==_iff _ 0).0 zero_mtu, rw zero_mtu at encoded)
      | inr some_mtu ↦ inl (ground arith, (rw some_mtu at encoded) ∙ same)
    ])

-- The six bytes that are sent for an IPv4 address and an MTU, and that they are read back.
pub welcome_payload_sent :
    (ip : Bytes) (mtu : ℕ)
    → length ip ≡ 4
    → 0 < mtu
    → mtu < 2 ^ 16
    → (bytes : Bytes) × (encode_welcome_payload (record { tunnel_ip = v4 ip; mtu = mtu })
        ≡ ok bytes)
      × (length bytes ≡ 6)
      × (decode_welcome_payload bytes ≡ ok (record { tunnel_ip = v4 ip; mtu = mtu }))
welcome_payload_sent ip mtu four pos fits =
    let (bytes, sent, back) =
      >>=-eq-ok (encode_welcome_payload (record { tunnel_ip = v4 ip; mtu = mtu }))
        decode_welcome_payload (decode_welcome_payload-encode ip mtu four pos fits) in
    (bytes, sent, (decode_welcome_payload-eq-ok bytes back).0, back)
