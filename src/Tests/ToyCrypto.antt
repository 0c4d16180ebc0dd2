-- ===== src/Tests/ToyCrypto.antt =====
-- A small stand-in for Go's crypto packages that has the properties which the protocol relies on: a tag
-- of 16 equal bytes that depends on the key, the nonce, the additional data and the plaintext.
use elevpn.Prelude.{
  ℕ, ◌+◌, ◌-◌, ◌%◌, ◌≡◌, ◌≢◌, refl, sym, ap, ap₂, subst, ◌∙◌, ◌==◌, if◌then◌else◌, Bool-cases, inl,
  inr, Option, none, some, [], ◌∷◌, ◌++◌, length, take, drop, replicate, list_beq, list_beq_iff,
  length-append, take-append, drop-append, take-append-drop, All-take, arith, external, ok, err,
}
use elevpn.Bytes.{Bytes, IsBytes, put_be, length-put_be}
use elevpn.Protocol.Aead.{Aead, IsAead, Crypto, IsCrypto}

abbrev pub checksum : Bytes → ℕ
checksum [] = 0
checksum (b ∷ bs) = b + checksum bs

abbrev pub tag : Bytes → Bytes → Bytes → Bytes → Bytes
tag k n d p = replicate 16 ((checksum k + checksum n + checksum d + checksum p) % 256)

abbrev pub toy_unseal : Bytes → Bytes → Bytes → Bytes → Option Bytes
toy_unseal k n c d =
    if list_beq (drop (length c - 16) c) (tag k n d (take (length c - 16) c))
    then some (take (length c - 16) c)
    else none

abbrev pub toy_aead : Bytes → Aead
toy_aead k = record { seal = λ n p d. p ++ tag k n d p; unseal = toy_unseal k }

toy_cut : (k n p d : Bytes) → length p ≡ length (p ++ tag k n d p) - 16
toy_cut k n p d = omega (arith, length-append p (tag k n d p))

toy_unseal_seal : (k n p d : Bytes) → toy_unseal k n (p ++ tag k n d p) d ≡ some p
toy_unseal_seal k n p d =
    let front = take-append (length (p ++ tag k n d p) - 16) p (tag k n d p) (toy_cut k n p d) in
    let back = drop-append (length (p ++ tag k n d p) - 16) p (tag k n d p) (toy_cut k n p d) in
    rw (front, back, (list_beq_iff (tag k n d p) (tag k n d p)).1 refl) refl

toy_unseal-eq-some :
    (k n c d p : Bytes)
    → toy_unseal k n c d ≡ some p
    → (p ≡ take (length c - 16) c) × (drop (length c - 16) c ≡ tag k n d p)
toy_unseal-eq-some k n c d p h =
    elim (Bool-cases (list_beq (drop (length c - 16) c) (tag k n d (take (length c - 16) c)))) [
      | inl t ↦
          let e : some (take (length c - 16) c) ≡ some p = rw t at h in
          let same : take (length c - 16) c ≡ p = cc in
          (sym same, (list_beq_iff _ _).0 t ∙ ap (tag k n d) same)
      | inr f ↦ let e : none ≡ some p = rw f at h in absurd (none-ne-some e)
    ]
  where
    none-ne-some : {x : Bytes} → none ≢ some x
    none-ne-some e = cc

pub toy_aead-IsAead : (k : Bytes) → IsAead (toy_aead k)
toy_aead-IsAead k = record {
  length_seal = λ n p d. length-append p (tag k n d p);
  unseal_seal = toy_unseal_seal k;
  unseal_sound = λ n c d p h.
      let (front, back) = toy_unseal-eq-some k n c d p h in
      sym (take-append-drop (length c - 16) c) ∙ ap₂ ◌++◌ (sym front) back;
  unseal_bytes = λ n c d p b h.
      let (front, _) = toy_unseal-eq-some k n c d p h in
      subst IsBytes (sym front) (All-take _ (length c - 16) c b);
}

abbrev pub toy_crypto : Crypto
toy_crypto = record {
  sha256 = λ m. put_be 32 (checksum m);
  hmac_sha256 = λ k m. put_be 32 (checksum k + checksum m);
  new_aes = λ k. if length k == 32 then ok k else err external;
  new_gcm = λ k. ok (toy_aead k);
}

pub toy_crypto-IsCrypto : IsCrypto toy_crypto
toy_crypto-IsCrypto = record {
  length_hmac = λ k m. length-put_be 32 (checksum k + checksum m);
  aes_ok = λ k h. rw (h) refl;
  gcm_ok = λ k h. (toy_aead k, refl, toy_aead-IsAead k);
}
