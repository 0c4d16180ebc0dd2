-- ===== src/Protocol/Aead/Nonce.antt =====
-- internal/protocol/aead.go: nonces, opening after sealing, and the ciphers of the derived keys.
use elevpn.Prelude.{
  ℕ, ◌^◌, ◌<◌, ◌≡◌, refl, sym, ap, ◌∙◌, length, take, drop, take-append, drop-append, some, none,
  Option, arith, ok, ◌>>=◌,
}
use elevpn.Bytes.{Bytes, IsBytes, put_be, be, length-put_be, be-put_be_fits}
use elevpn.Protocol.Aead.{
  Crypto, IsAead, IsCrypto, Direction, client_to_server, server_to_client, direction_code, Cipher,
  CipherSuite, build_nonce, seal_payload, opened, open_payload, new_cipher_from_key,
  new_aloha_cipher, new_welcome_cipher, new_peer_cipher,
}

direction_code-injective : (d e : Direction) → direction_code d ≡ direction_code e → d ≡ e
direction_code-injective d e h = ground arith

direction_code-lt : (d : Direction) → direction_code d < 2 ^ 32
direction_code-lt client_to_server = omega arith
direction_code-lt server_to_client = omega arith

put_be_injective : (n v w : ℕ) → v < 256 ^ n → w < 256 ^ n → put_be n v ≡ put_be n w → v ≡ w
put_be_injective n v w p q e = sym (be-put_be_fits n v p) ∙ ap be e ∙ be-put_be_fits n w q

-- Two packets have the same nonce only if they go in the same direction and have the same sequence.
pub build_nonce_injective :
    (d e : Direction) (s t : ℕ)
    → s < 2 ^ 64
    → t < 2 ^ 64
    → build_nonce d s ≡ build_nonce e t
    → (d ≡ e) × (s ≡ t)
unfolding build_nonce
build_nonce_injective d e s t p q h =
    let ld = length-put_be 4 (direction_code d) in
    let le = length-put_be 4 (direction_code e) in
    (
      direction_code-injective d e (
          put_be_injective 4 _ _ (direction_code-lt d) (direction_code-lt e) (
            sym (take-append 4 _ (put_be 8 s) ld)
            ∙ ap (take 4) h
            ∙ take-append 4 _ (put_be 8 t) le)),
      put_be_injective 8 s t p q
          (sym (drop-append 4 _ (put_be 8 s) ld) ∙ ap (drop 4) h ∙ drop-append 4 _ (put_be 8 t) le),
    )

opened-eq-ok : (o : Option Bytes) {p : Bytes} → opened o ≡ ok p → o ≡ some p
opened-eq-ok none h = cc
opened-eq-ok (some q) h = cc

module _ (c : Cipher) (good : IsAead c.aead) (d : Direction) (sequence : ℕ) where
  pub open_payload_sealed :
      (aad payload : Bytes)
      → open_payload c d sequence aad (c.aead.seal (build_nonce d sequence) payload aad)
        ≡ ok payload
  unfolding open_payload
  open_payload_sealed aad payload =
      ap opened (good.unseal_seal (build_nonce d sequence) payload aad)

  -- What was sealed opens again, under the same direction, sequence and additional data.
  pub open_payload-seal :
      (aad payload : Bytes)
      → (seal_payload c d sequence aad payload >>= open_payload c d sequence aad) ≡ ok payload
  unfolding seal_payload
  open_payload-seal aad payload = open_payload_sealed aad payload

  -- What is opened is what sealing the result makes, so nothing else passes under this key.
  pub open_payload-eq-ok :
      (aad ciphertext payload : Bytes)
      → open_payload c d sequence aad ciphertext ≡ ok payload
      → seal_payload c d sequence aad payload ≡ ok ciphertext
  unfolding seal_payload open_payload
  open_payload-eq-ok aad ciphertext payload h =
      ap (λ (x : Bytes). ok x)
        (sym (good.unseal_sound (build_nonce d sequence) ciphertext aad payload (opened-eq-ok _ h)))

  pub open_payload-IsBytes :
      (aad ciphertext payload : Bytes)
      → IsBytes ciphertext
      → open_payload c d sequence aad ciphertext ≡ ok payload
      → IsBytes payload
  unfolding open_payload
  open_payload-IsBytes aad ciphertext payload b h =
      good.unseal_bytes (build_nonce d sequence) ciphertext aad payload b (opened-eq-ok _ h)

-- A key of 32 bytes makes a cipher that keeps the laws.
module _ (crypto : Crypto) (good : IsCrypto crypto) where
  from_key_total :
      (key : Bytes)
      → length key ≡ 32
      → (c : Cipher) × (new_cipher_from_key crypto key ≡ ok c) × IsAead c.aead
  unfolding new_cipher_from_key
  from_key_total key size =
      let (aead, made, laws) = good.gcm_ok key size in
      (record { aead = aead }, rw (good.aes_ok key size) (rw made refl), laws)

  pub new_aloha_cipher_total :
      (cs : CipherSuite) (client_random : Bytes)
      → (c : Cipher) × (new_aloha_cipher crypto cs client_random ≡ ok c) × IsAead c.aead
  unfolding new_aloha_cipher
  new_aloha_cipher_total cs r = from_key_total _ (good.length_hmac _ _)

  pub new_welcome_cipher_total :
      (cs : CipherSuite) (client_random server_random : Bytes)
      → (c : Cipher) × (new_welcome_cipher crypto cs client_random server_random ≡ ok c)
        × IsAead c.aead
  unfolding new_welcome_cipher
  new_welcome_cipher_total cs r s = from_key_total _ (good.length_hmac _ _)

  pub new_peer_cipher_total :
      (cs : CipherSuite) (peer_id : ℕ) (client_random server_random : Bytes)
      → (c : Cipher) × (new_peer_cipher crypto cs peer_id client_random server_random ≡ ok c)
        × IsAead c.aead
  unfolding new_peer_cipher
  new_peer_cipher_total cs id r s = from_key_total _ (good.length_hmac _ _)
