-- ===== src/Protocol/Handshake/Aloha.antt =====
-- internal/protocol/handshake_codec.go: ALOHA, from the client to the server.
pub mod Received
use elevpn.Prelude.{
  ◌≤◌, ◌<◌, ◌≡◌, refl, sym, ap, subst, ◌∙◌, ltb, true, false, ◌==◌, ◌++◌, append_assoc, length,
  take, drop, length-append, length-take, length-drop, arith, some, Result, ok, err, ◌>>=◌, ◌>>◌,
  wrapping, >>=-eq-ok, wrapping-eq-ok, ok-injective, err-ne-ok, fault, dec_lt, short_packet,
}
use elevpn.Bytes.{Bytes, IsBytes}
use elevpn.Protocol.Message.{Header, Message, IsSendable, protocol_version, message_type_aloha}
use elevpn.Protocol.Codec.{header_bytes, header_fields}
use elevpn.Protocol.Codec.RoundTrip.{
  length-header_bytes, peek_header_long, header_fields-header_bytes,
}
use elevpn.Protocol.Aead.{
  Crypto, IsAead, IsCrypto, Cipher, CipherSuite, client_to_server, build_nonce, new_aloha_cipher,
}
use elevpn.Protocol.Aead.Nonce.{new_aloha_cipher_total}
use elevpn.Protocol.Handshake.{
  seal_handshake, open_handshake, encode_aloha_packet, check_aloha_header, decode_aloha_packet,
}
use elevpn.Protocol.Handshake.Seal.{
  handshake_packet, seal_handshake_sendable, length_prefix, random_part, open_handshake_sealed,
  seal-open_handshake,
}

-- The message of an ALOHA: peer id 0, and a sequence that is not 0.
pub record IsAloha (m : Message) : Type 0 where
  pub sendable : IsSendable m
  pub type_aloha : m.message_type ≡ message_type_aloha
  pub no_peer : m.peer_id ≡ 0
  pub numbered : 0 < m.sequence

pub check_aloha_header_iff :
    (h : Header)
    → check_aloha_header h ≡ ok tt
    → (h.version ≡ 1) × (h.message_type ≡ 1) × (h.peer_id ≡ 0) × (0 < h.sequence)
unfolding check_aloha_header
check_aloha_header_iff h e = ground arith

check_aloha_header_passes :
    (h : Header)
    → h.version ≡ 1
    → h.message_type ≡ 1
    → h.peer_id ≡ 0
    → 0 < h.sequence
    → check_aloha_header h ≡ ok tt
unfolding check_aloha_header
check_aloha_header_passes h v t p s = ground arith

encode_aloha_typed :
    (c : Cipher) (m : Message) (random : Bytes)
    → m.message_type ≡ 1
    → encode_aloha_packet (some c) (some m) random ≡ seal_handshake c client_to_server m random
unfolding encode_aloha_packet
encode_aloha_typed c m random t =
    let test : (m.message_type == 1) ≡ true = ground (arith, t) in rw test refl

encode_aloha-IsAloha :
    (c : Cipher) (m : Message) (random : Bytes)
    → IsAloha m
    → encode_aloha_packet (some c) (some m) random
      ≡ ok (handshake_packet c client_to_server m random)
encode_aloha-IsAloha c m random h =
    encode_aloha_typed c m random h.type_aloha
    ∙ seal_handshake_sendable c client_to_server m random h.sendable

module _ (crypto : Crypto) (cs : CipherSuite) where
  -- After the checks of length and header.
  abbrev open_aloha : Bytes → Result (Message × Bytes)
  open_aloha packet =
      let client_random = take 16 (drop 20 packet) in
      wrapping (new_aloha_cipher crypto cs client_random) >>= λ aloha_cipher.
      open_handshake aloha_cipher client_to_server (header_fields packet).sequence packet
      >>= λ message. ok (message, client_random)

  decode_aloha_long :
      (packet : Bytes)
      → 52 ≤ length packet
      → decode_aloha_packet crypto cs packet
        ≡ (check_aloha_header (header_fields packet) >> open_aloha packet)
  unfolding decode_aloha_packet
  decode_aloha_long packet long =
      let test : ltb (length packet) 52 ≡ false = ground arith in
      rw test (rw (peek_header_long packet (omega arith)) refl)

  decode_aloha_short :
      (packet : Bytes)
      → length packet < 52
      → decode_aloha_packet crypto cs packet ≡ err (fault short_packet)
  unfolding decode_aloha_packet
  decode_aloha_short packet short =
      let test : ltb (length packet) 52 ≡ true = ground arith in rw test refl

  pub decode_aloha-length :
      (packet : Bytes) {r : Message × Bytes}
      → decode_aloha_packet crypto cs packet ≡ ok r
      → 52 ≤ length packet
  decode_aloha-length packet e = elim (dec_lt (length packet) 52) [
    | yes short ↦ absurd (err-ne-ok (sym (decode_aloha_short packet short) ∙ e))
    | no long ↦ omega arith
  ]

  -- Every check that an accepted packet passed, and its parts.
  pub decode_aloha-eq-ok :
      (packet : Bytes) (m : Message) (random : Bytes)
      → decode_aloha_packet crypto cs packet ≡ ok (m, random)
      → (c : Cipher) × (check_aloha_header (header_fields packet) ≡ ok tt)
        × (new_aloha_cipher crypto cs (take 16 (drop 20 packet)) ≡ ok c)
        × (open_handshake c client_to_server (header_fields packet).sequence packet ≡ ok m)
        × (random ≡ take 16 (drop 20 packet))
  decode_aloha-eq-ok packet m random e =
      let long = decode_aloha-length packet e in
      let (_, checked, after) =
        >>=-eq-ok (check_aloha_header (header_fields packet)) (λ _. open_aloha packet)
          (sym (decode_aloha_long packet long) ∙ e) in
      let (c, made, rest) = >>=-eq-ok _ _ after in
      let (m', opens, pair) = >>=-eq-ok _ _ rest in
      let same : (m', take 16 (drop 20 packet)) ≡ (m, random) = ok-injective pair in
      (
        c,
        checked,
        wrapping-eq-ok _ made,
        opens ∙ ap (λ (x : Message × Bytes). ok x.0) same,
        sym (ap (λ (x : Message × Bytes). x.1) same),
      )

module _ (crypto : Crypto) (good : IsCrypto crypto) (cs : CipherSuite) where
  -- With crypto packages that do what they document, an ALOHA that a client seals under the key of its random is decoded by a server with the same
  -- pre-shared key, to the same message and random: for every message of type ALOHA that `Encode` accepts
  -- with peer id 0 and a sequence above 0, and every random of 16 bytes.
  pub decode_aloha-encode :
      (m : Message) (random : Bytes)
      → IsAloha m
      → length random ≡ 16
      → (new_aloha_cipher crypto cs random >>= λ c.
          encode_aloha_packet (some c) (some m) random >>= decode_aloha_packet crypto cs)
        ≡ ok (record m { header = record m.header { version = protocol_version } }, random)
  decode_aloha-encode m random h lr =
      let (c, made, laws) = new_aloha_cipher_total crypto good cs random in
      let packet = handshake_packet c client_to_server m random in
      let hd = header_bytes m in
      let lh = length-header_bytes m in
      let sealed = c.aead.seal (build_nonce client_to_server m.sequence) m.payload (hd ++ random) in
      let size : 52 ≤ length packet = omega (
        arith,
        length-append (hd ++ random) sealed,
        length_prefix hd random sealed lh lr,
        laws.length_seal (build_nonce client_to_server m.sequence) m.payload (hd ++ random),
      ) in
      let fields : header_fields packet ≡ record m.header { version = protocol_version } =
        ap header_fields (append_assoc hd random sealed)
        ∙ header_fields-header_bytes m (random ++ sealed) h.sendable.header_ok in
      let checked =
        check_aloha_header_passes (record m.header { version = protocol_version }) refl h.type_aloha
          h.no_peer h.numbered in
      rw made (
        rw (encode_aloha-IsAloha c m random h) (
          decode_aloha_long crypto cs packet size
          ∙ rw fields (
              rw (checked, random_part hd random sealed lh lr)
                (rw made (
                  rw (open_handshake_sealed c laws client_to_server m random h.sendable lr)
                    refl)))))

  -- With such packages, a buffer of bytes that the server accepts as an ALOHA is the very packet that a client with the same
  -- pre-shared key makes of the message and the random that come out.
  pub encode-decode-IsAloha :
      (packet : Bytes) (m : Message) (random : Bytes)
      → IsBytes packet
      → decode_aloha_packet crypto cs packet ≡ ok (m, random)
      → ((new_aloha_cipher crypto cs random >>= λ c. encode_aloha_packet (some c) (some m) random)
          ≡ ok packet)
        × IsAloha m
        × (length random ≡ 16)
  encode-decode-IsAloha packet m random b e =
      let (c, checked, made, opens, rnd) = decode_aloha-eq-ok crypto cs packet m random e in
      let long = decode_aloha-length crypto cs packet e in
      let (c', made', laws') = new_aloha_cipher_total crypto good cs (take 16 (drop 20 packet)) in
      let laws = subst (λ (x : Cipher). IsAead x.aead) (ok-injective (sym made' ∙ made)) laws' in
      let (sealed, sendable, same) =
        seal-open_handshake c laws client_to_server packet m b (omega arith) opens in
      let (_, t, p, s) = check_aloha_header_iff (header_fields packet) checked in
      let t' : m.message_type ≡ 1 = ap (λ (f : Header). f.message_type) same ∙ t in
      (
        rw (rnd, made) (encode_aloha_typed c m (take 16 (drop 20 packet)) t' ∙ sealed),
        record {
          sendable = sendable;
          type_aloha = t';
          no_peer = ap (λ (f : Header). f.peer_id) same ∙ p;
          numbered = omega (arith, ap (λ (f : Header). f.sequence) same);
        },
        omega (arith, ap length rnd, length-take 16 (drop 20 packet), length-drop 20 packet),
      )
