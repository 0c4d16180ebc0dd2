-- ===== src/Protocol/Aead.antt =====
-- internal/protocol/aead.go: keys derived from the pre-shared key, nonces, sealing and opening.
-- SHA-256, HMAC and AES-GCM are Go's packages: they are the parameter `Crypto`.
pub mod Nonce
use elevpn.Prelude.{
  ℕ, ◌+◌, ◌<◌, ◌≡◌, Bool, ◌==◌, ◌++◌, length, Option, none, some, Error, fault, sentinel, external,
  psk_empty, authentication_failed, Result, ok, err, ◌>>=◌, ◌>>◌, reject, wrap, wrapping,
}
use elevpn.Bytes.{Bytes, IsBytes, put_be}

-- `cipher.AEAD`: `seal nonce plaintext aad` is the ciphertext with the tag behind it.
pub record Aead : Type 0 where
  pub seal : Bytes → Bytes → Bytes → Bytes
  pub unseal : Bytes → Bytes → Bytes → Option Bytes

-- crypto/sha256, crypto/hmac over the concatenation of what is written, crypto/aes and `NewGCM`.
-- A block cipher is told apart by its key.
pub record Crypto : Type 0 where
  pub sha256 : Bytes → Bytes
  pub hmac_sha256 : Bytes → Bytes → Bytes
  pub new_aes : Bytes → Result Bytes
  pub new_gcm : Bytes → Result Aead

-- What the packages document of an AEAD: the tag has 16 bytes, what was sealed is opened, and what is
-- opened is what `Seal` makes of the plaintext under the same nonce and additional data.
pub record IsAead (a : Aead) : Type 0 where
  pub length_seal : (n p d : Bytes) → length (a.seal n p d) ≡ length p + 16
  pub unseal_seal : (n p d : Bytes) → a.unseal n (a.seal n p d) d ≡ some p
  pub unseal_sound : (n c d p : Bytes) → a.unseal n c d ≡ some p → c ≡ a.seal n p d
  pub unseal_bytes : (n c d p : Bytes) → IsBytes c → a.unseal n c d ≡ some p → IsBytes p

-- A key of 32 bytes is taken, and HMAC-SHA-256 makes such keys.
pub record IsCrypto (c : Crypto) : Type 0 where
  pub length_hmac : (k m : Bytes) → length (c.hmac_sha256 k m) ≡ 32
  pub aes_ok : (k : Bytes) → length k ≡ 32 → c.new_aes k ≡ ok k
  pub gcm_ok : (k : Bytes) → length k ≡ 32 → (a : Aead) × (c.new_gcm k ≡ ok a) × IsAead a

pub data Direction : Type 0 where
  client_to_server server_to_client : Direction

-- `uint32(direction)`
abbrev pub direction_code : Direction → ℕ
direction_code client_to_server = 1
direction_code server_to_client = 2

-- A cipher is made by `newCipherFromKey` alone, so its `aead` is never nil.
pub record Cipher : Type 0 where
  pub aead : Aead

pub record CipherSuite : Type 0 where
  pub master_key : Bytes

unfoldable pub build_nonce : Direction → ℕ → Bytes
build_nonce direction sequence = put_be 4 (direction_code direction) ++ put_be 8 sequence

unfoldable pub seal_payload : Cipher → Direction → ℕ → Bytes → Bytes → Result Bytes
seal_payload c direction sequence aad payload =
    let nonce = build_nonce direction sequence in ok (c.aead.seal nonce payload aad)

-- Go joins the two errors by `%v: %w`: `errors.Is` sees the second.
abbrev pub opened : Option Bytes → Result Bytes
opened none = err (wrap (sentinel authentication_failed))
opened (some payload) = ok payload

unfoldable pub open_payload : Cipher → Direction → ℕ → Bytes → Bytes → Result Bytes
open_payload c direction sequence aad ciphertext =
    let nonce = build_nonce direction sequence in opened (c.aead.unseal nonce ciphertext aad)

module _ (crypto : Crypto) where
  open crypto use {sha256, hmac_sha256, new_aes, new_gcm}

  pub derive_master_key : Bytes → Bytes
  derive_master_key psk = sha256 psk

  pub derive_aloha_key : Bytes → Bytes → Bytes
  derive_aloha_key master_key client_random = hmac_sha256 master_key client_random

  pub derive_welcome_key : Bytes → Bytes → Bytes → Bytes
  derive_welcome_key master_key client_random server_random =
      hmac_sha256 master_key (client_random ++ server_random)

  pub derive_peer_key : Bytes → ℕ → Bytes → Bytes → Bytes
  derive_peer_key master_key peer_id client_random server_random =
      hmac_sha256 master_key (put_be 8 peer_id ++ (client_random ++ server_random))

  unfoldable pub new_cipher_suite : Bytes → Result CipherSuite
  unfolding derive_master_key
  new_cipher_suite psk = do
    reject (length psk == 0) (fault psk_empty)
    ok (record { master_key = derive_master_key psk })

  unfoldable pub new_cipher_from_key : Bytes → Result Cipher
  new_cipher_from_key key = do
    block ← wrapping (new_aes key)
    aead ← wrapping (new_gcm block)
    ok (record { aead = aead })

  unfoldable pub new_aloha_cipher : CipherSuite → Bytes → Result Cipher
  unfolding derive_aloha_key
  new_aloha_cipher cs client_random =
      new_cipher_from_key (derive_aloha_key cs.master_key client_random)

  unfoldable pub new_welcome_cipher : CipherSuite → Bytes → Bytes → Result Cipher
  unfolding derive_welcome_key
  new_welcome_cipher cs client_random server_random =
      new_cipher_from_key (derive_welcome_key cs.master_key client_random server_random)

  unfoldable pub new_peer_cipher : CipherSuite → ℕ → Bytes → Bytes → Result Cipher
  unfolding derive_peer_key
  new_peer_cipher cs peer_id client_random server_random =
      new_cipher_from_key (derive_peer_key cs.master_key peer_id client_random server_random)
