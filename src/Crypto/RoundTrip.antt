-- ===== src/Crypto/RoundTrip.antt =====
-- What was encrypted decrypts.
use cerclbackup.Prelude.{
  ℕ, ◌<◌, ◌≡◌, sym, ap, ◌∙◌, some, [], ◌++◌, arith, Bytes, text, length, take, drop, length-append,
  take-append_length, drop-append_length, ok, err,
}
use cerclbackup.Files.Decimal.{ℤ, itoa}
use cerclbackup.Crypto.{
  Primitives, blob_too_short, derive_sub_key, derive_shard_key, new_cipher, encrypt, decrypt,
  encrypt_shard, decrypt_shard,
}

-- The documented behaviour: GCM opens what it sealed under the same key and nonce, and the derived
-- keys have 32 bytes.
pub record IsAead (c : Primitives) : Type 0 where
  pub opens :
      (key nonce plaintext : Bytes)
      → c.unseal key nonce (c.seal key nonce plaintext) ≡ some plaintext
  pub expands :
      (secret salt info : Bytes)
      → (key : Bytes) × (c.expand secret salt info ≡ some key) × (length key ≡ 32)

-- Under a key of 32 bytes and with a nonce of 12: Encrypt succeeds, and Decrypt returns the
-- plaintext.
pub decrypt-encrypt :
    (c : Primitives) (key nonce plaintext : Bytes)
    → IsAead c
    → length key ≡ 32
    → length nonce ≡ 12
    → (blob : Bytes) × (encrypt c (some nonce) key plaintext ≡ ok blob)
      × (decrypt c key blob ≡ ok plaintext)
unfolding encrypt decrypt new_cipher
decrypt-encrypt c key nonce plaintext laws k n =
    let sealed : Bytes = c.seal key nonce plaintext in
    let front : take 12 (nonce ++ sealed) ≡ nonce =
      ap (λ (i : ℕ). take i (nonce ++ sealed)) (sym n) ∙ take-append_length nonce sealed in
    let back : drop 12 (nonce ++ sealed) ≡ sealed =
      ap (λ (i : ℕ). drop i (nonce ++ sealed)) (sym n) ∙ drop-append_length nonce sealed in
    (
      nonce ++ sealed,
      rw k,
      ground (arith, k, n, front, back, length-append nonce sealed, laws.opens key nonce plaintext),
    )

-- Over GCM and HKDF as documented, for a nonce of 12 bytes: EncryptShard of every file key, index
-- and shard succeeds, and DecryptShard with the same file key and index returns the shard.
pub decrypt_shard-encrypt_shard :
    (c : Primitives) (file_key nonce shard : Bytes) (index : ℤ)
    → IsAead c
    → length nonce ≡ 12
    → (blob : Bytes) × (encrypt_shard c (some nonce) file_key index shard ≡ ok blob)
      × (decrypt_shard c file_key index blob ≡ ok shard)
unfolding encrypt_shard decrypt_shard derive_shard_key derive_sub_key
decrypt_shard-encrypt_shard c file_key nonce shard index laws n =
    let (key, e, l) = laws.expands file_key [] (text "cerclbackup-shard-key-v1-" ++ itoa index) in
    let (blob, sealed, opened) = decrypt-encrypt c key nonce shard laws l n in
    (blob, ground (arith, e, sealed), ground (arith, e, opened))

-- A blob that is shorter than a nonce is refused, not read past its end.
pub decrypt_short :
    (c : Primitives) (key blob : Bytes)
    → length key ≡ 32
    → length blob < 12
    → decrypt c key blob ≡ err blob_too_short
unfolding decrypt new_cipher
decrypt_short c key blob k l = ground (arith, k)
