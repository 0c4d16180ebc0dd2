-- ===== src/Protocol/Handshake/Welcome.antt =====
-- internal/protocol/handshake_codec.go: WELCOME, from the server to the client.
pub mod Received
use elevpn.Prelude.{
  ◌≤◌, ◌<◌, ◌≡◌, refl, sym, ap, subst, ◌∙◌, ltb, true, false, ◌==◌, ◌++◌, append_assoc, length,
  take, drop, length-append, length-take, length-drop, arith, some, Result, ok, err, ◌>>=◌, ◌>>◌,
  wrapping, >>=-eq-ok, wrapping-eq-ok, ok-injective, err-ne-ok, fault, dec_lt, short_packet,
}
use elevpn.Bytes.{Bytes, IsBytes}
use elevpn.Protocol.Message.{Header, Message, IsSendable, protocol_version, message_type_welcome}
use elevpn.Protocol.Codec.{header_bytes, header_fields}
use elevpn.Protocol.Codec.RoundTrip.{
  length-header_bytes, peek_header_long, header_fields-header_bytes,
}
use elevpn.Protocol.Aead.{
  Crypto, IsAead, IsCrypto, Cipher, CipherSuite, server_to_client, build_nonce, new_welcome_cipher,
}
use elevpn.Protocol.Aead.Nonce.{new_welcome_cipher_total}
use elevpn.Protocol.Handshake.{
  seal_handshake, open_handshake, encode_welcome_packet, check_welcome_header,
  decode_welcome_packet,
}
use elevpn.Protocol.Handshake.Seal.{
  handshake_packet, seal_handshake_sendable, length_prefix, random_part, open_handshake_sealed,
  seal-open_handshake,
}

-- The message of a WELCOME: a peer id and a sequence that are not 0.
pub record IsWelcome (m : Message) : Type 0 where
  pub sendable : IsSendable m
  pub type_welcome : m.message_type ≡ message_type_welcome
  pub for_peer : 0 < m.peer_id
  pub numbered : 0 < m.sequence

check_welcome_header_iff :
    (h : Header)
    → check_welcome_header h ≡ ok tt
    → (h.version ≡ 1) × (h.message_type ≡ 2) × (0 < h.peer_id) × (0 < h.sequence)
unfolding check_welcome_header
check_welcome_header_iff h e = ground arith

check_welcome_header_passes :
    (h : Header)
    → h.version ≡ 1
    → h.message_type ≡ 2
    → 0 < h.peer_id
    → 0 < h.sequence
    → check_welcome_header h ≡ ok tt
unfolding check_welcome_header
check_welcome_header_passes h v t p s = ground arith

encode_welcome_typed :
    (c : Cipher) (m : Message) (random : Bytes)
    → m.message_type ≡ 2
    → encode_welcome_packet (some c) (some m) random ≡ seal_handshake c server_to_client m random
unfolding encode_welcome_packet
encode_welcome_typed c m random t =
    let test : (m.message_type == 2) ≡ true = ground (arith, t) in rw test refl

encode_welcome-IsWelcome :
    (c : Cipher) (m : Message) (random : Bytes)
    → IsWelcome m
    → encode_welcome_packet (some c) (some m) random
      ≡ ok (handshake_packet c server_to_client m random)
encode_welcome-IsWelcome c m random h =
    encode_welcome_typed c m random h.type_welcome
    ∙ seal_handshake_sendable c server_to_client m random h.sendable

module _ (crypto : Crypto) (cs : CipherSuite) (client_random : Bytes) where
  -- After the checks of length and header.
  abbrev open_welcome : Bytes → Result (Message × Bytes)
  open_welcome packet =
      let server_random = take 16 (drop 20 packet) in
      wrapping (new_welcome_cipher crypto cs client_random server_random) >>= λ welcome_cipher.
      open_handshake welcome_cipher server_to_client (header_fields packet).sequence packet
      >>= λ message. ok (message, server_random)

  decode_welcome_long :
      (packet : Bytes)
      → 52 ≤ length packet
      → decode_welcome_packet crypto cs packet client_random
        ≡ (check_welcome_header (header_fields packet) >> open_welcome packet)
  unfolding decode_welcome_packet
  decode_welcome_long packet long =
      let test : ltb (length packet) 52 ≡ false = ground arith in
      rw test (rw (peek_header_long packet (omega arith)) refl)

  decode_welcome_short :
      (packet : Bytes)
      → length packet < 52
      → decode_welcome_packet crypto cs packet client_random ≡ err (fault short_packet)
  unfolding decode_welcome_packet
  decode_welcome_short packet short =
      let test : ltb (length packet) 52 ≡ true = ground arith in rw test refl

  decode_welcome-length :
      (packet : Bytes) {r : Message × Bytes}
      → decode_welcome_packet crypto cs packet client_random ≡ ok r
      → 52 ≤ length packet
  decode_welcome-length packet e = elim (dec_lt (length packet) 52) [
    | yes short ↦ absurd (err-ne-ok (sym (decode_welcome_short packet short) ∙ e))
    | no long ↦ omega arith
  ]

  -- Every check that an accepted packet passed, and its parts.
  decode_welcome-eq-ok :
      (packet : Bytes) (m : Message) (random : Bytes)
      → decode_welcome_packet crypto cs packet client_random ≡ ok (m, random)
      → (c : Cipher) × (check_welcome_header (header_fields packet) ≡ ok tt)
        × (new_welcome_cipher crypto cs client_random (take 16 (drop 20 packet)) ≡ ok c)
        × (open_handshake c server_to_client (header_fields packet).sequence packet ≡ ok m)
        × (random ≡ take 16 (drop 20 packet))
  decode_welcome-eq-ok packet m random e =
      let long = decode_welcome-length packet e in
      let (_, checked, after) =
        >>=-eq-ok (check_welcome_header (header_fields packet)) (λ _. open_welcome packet)
          (sym (decode_welcome_long packet long) ∙ e) in
      let (c, made, rest) = >>=-eq-ok _ _ after in
      let (m', opens, pair) = >>=-eq-ok _ _ rest in
      let same : (m', take 16 (drop 20 packet)) ≡ (m, random) = ok-injective pair in
      (
        c,
        checked,
        wrapping-eq-ok _ made,
        opens ∙ ap (λ (x : Message × Bytes). ok x.0) same,
        sym (ap (λ (x : Message × Bytes). x.1) same),
      )

module _ (crypto : Crypto) (good : IsCrypto crypto) (cs : CipherSuite) (client_random : Bytes) where
  -- With crypto packages that do what they document, a WELCOME that a server seals under the key of both randoms is decoded by the client that knows the
  -- same pre-shared key and client random, to the same message and server random: for every message of
  -- type WELCOME that `Encode` accepts with a peer id and a sequence above 0, and every random of 16 bytes.
  pub decode_welcome-encode :
      (m : Message) (random : Bytes)
      → IsWelcome m
      → length random ≡ 16
      → (new_welcome_cipher crypto cs client_random random >>= λ c.
          encode_welcome_packet (some c) (some m) random >>= λ packet.
          decode_welcome_packet crypto cs packet client_random)
        ≡ ok (record m { header = record m.header { version = protocol_version } }, random)
  decode_welcome-encode m random h lr =
      let (c, made, laws) = new_welcome_cipher_total crypto good cs client_random random in
      let packet = handshake_packet c server_to_client m random in
      let hd = header_bytes m in
      let lh = length-header_bytes m in
      let sealed = c.aead.seal (build_nonce server_to_client m.sequence) m.payload (hd ++ random) in
      let size : 52 ≤ length packet = omega (
        arith,
        length-append (hd ++ random) sealed,
        length_prefix hd random sealed lh lr,
        laws.length_seal (build_nonce server_to_client m.sequence) m.payload (hd ++ random),
      ) in
      let fields : header_fields packet ≡ record m.header { version = protocol_version } =
        ap header_fields (append_assoc hd random sealed)
        ∙ header_fields-header_bytes m (random ++ sealed) h.sendable.header_ok in
      let checked =
        check_welcome_header_passes (record m.header { version = protocol_version }) refl
          h.type_welcome h.for_peer h.numbered in
      rw made (
        rw (encode_welcome-IsWelcome c m random h) (
          decode_welcome_long crypto cs client_random packet size
          ∙ rw fields (
              rw (checked, random_part hd random sealed lh lr)
                (rw made (
                  rw (open_handshake_sealed c laws server_to_client m random h.sendable lr)
                    refl)))))

  -- With such packages, a buffer of bytes that the client accepts as a WELCOME is the very packet that a server with the same
  -- pre-shared key and client random makes of the message and the random that come out.
  pub encode-decode-IsWelcome :
      (packet : Bytes) (m : Message) (random : Bytes)
      → IsBytes packet
      → decode_welcome_packet crypto cs packet client_random ≡ ok (m, random)
      → ((new_welcome_cipher crypto cs client_random random >>= λ c.
            encode_welcome_packet (some c) (some m) random)
          ≡ ok packet)
        × IsWelcome m
        × (length random ≡ 16)
  encode-decode-IsWelcome packet m random b e =
      let (c, checked, made, opens, rnd) =
        decode_welcome-eq-ok crypto cs client_random packet m random e in
      let long = decode_welcome-length crypto cs client_random packet e in
      let (c', made', laws') =
        new_welcome_cipher_total crypto good cs client_random (take 16 (drop 20 packet)) in
      let laws = subst (λ (x : Cipher). IsAead x.aead) (ok-injective (sym made' ∙ made)) laws' in
      let (sealed, sendable, same) =
        seal-open_handshake c laws server_to_client packet m b (omega arith) opens in
      let (_, t, p, s) = check_welcome_header_iff (header_fields packet) checked in
      let t' : m.message_type ≡ 2 = ap (λ (f : Header). f.message_type) same ∙ t in
      (
        rw (rnd, made) (encode_welcome_typed c m (take 16 (drop 20 packet)) t' ∙ sealed),
        record {
          sendable = sendable;
          type_welcome = t';
          for_peer = omega (arith, ap (λ (f : Header). f.peer_id) same, p);
          numbered = omega (arith, ap (λ (f : Header). f.sequence) same);
        },
        omega (arith, ap length rnd, length-take 16 (drop 20 packet), length-drop 20 packet),
      )

  -- What a server that holds the WELCOME cipher sends, and what the client reads in it.
  pub welcome_sent :
      (m : Message) (random : Bytes) (c : Cipher)
      → IsWelcome m
      → length random ≡ 16
      → new_welcome_cipher crypto cs client_random random ≡ ok c
      → (packet : Bytes) × (encode_welcome_packet (some c) (some m) random ≡ ok packet)
        × (decode_welcome_packet crypto cs packet client_random
            ≡ ok (record m { header = record m.header { version = protocol_version } }, random))
  welcome_sent m random c h lr made =
      let (c', made', rest) =
        >>=-eq-ok (new_welcome_cipher crypto cs client_random random) _
          (decode_welcome-encode m random h lr) in
      let (packet, sealed, opens) =
        >>=-eq-ok (encode_welcome_packet (some c') (some m) random) _ rest in
      let same : c' ≡ c = ok-injective (sym made' ∙ made) in
      (
        packet,
        ap (λ (d : Cipher). encode_welcome_packet (some d) (some m) random) (sym same) ∙ sealed,
        opens,
      )
