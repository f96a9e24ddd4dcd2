-- ===== src/Crypto.antt =====
-- internal/crypto/encryptor.go: keys of files and shards, and AES-256-GCM behind its nonce.
pub mod RoundTrip
pub mod Examples
use cerclbackup.Prelude.{
  ℕ, ◌*◌, ◌||◌, Option, none, some, [], ◌∷◌, ◌++◌, ltb, if◌then◌else◌, ◌==◌, nat_eq, list_eq, Bytes,
  text, length, take, drop, Result, ok, err, ◌>>=◌, ◌>>◌,
}
use cerclbackup.Files.Decimal.{ℤ, itoa}

-- crypto/aes, crypto/cipher and x/crypto/hkdf. `seal` and `unseal` are Seal and Open of GCM under a key
-- and a nonce, where `none` is a failed authentication; `expand` is HKDF-SHA256 of secret, salt and
-- info, read for 32 bytes.
pub record Primitives : Type 0 where
  pub expand : Bytes → Bytes → Bytes → Option Bytes
  pub seal : Bytes → Bytes → Bytes → Bytes
  pub unseal : Bytes → Bytes → Bytes → Option Bytes

pub data CryptoError : Type 0 where
  derive_failed bad_key no_nonce blob_too_short decrypt_failed : CryptoError

-- argon2.IDKey: password, salt, time, memory, threads and the length of the key.
abbrev pub Argon2 : Type 0
Argon2 = Bytes → Bytes → ℕ → ℕ → ℕ → ℕ → Bytes

-- DeriveKey(password, salt)
unfoldable pub derive_key : Argon2 → Bytes → Bytes → Bytes
derive_key argon2 password salt = argon2 password salt 3 (64 * 1024) 4 32

-- DeriveCircleKey(password, circleID, salt)
unfoldable pub derive_circle_key : Argon2 → Bytes → Bytes → Bytes → Bytes
unfolding derive_key
derive_circle_key argon2 password circle_id salt =
    derive_key argon2 (password ++ (0 ∷ circle_id)) salt

-- deriveSubKey(secret, salt, info)
unfoldable pub derive_sub_key : Primitives → Bytes → Bytes → Bytes → Result CryptoError Bytes
derive_sub_key c secret salt info = elim (c.expand secret salt info) [
  | none ↦ err derive_failed
  | some key ↦ ok key
]

-- DeriveFileKey(masterKey, fileHash)
unfoldable pub derive_file_key : Primitives → Bytes → Bytes → Result CryptoError Bytes
unfolding derive_sub_key
derive_file_key c master_key file_hash =
    derive_sub_key c master_key file_hash (text "cerclbackup-file-key-v1")

-- DeriveShardKey(fileKey, shardIndex); a nil salt is an empty one.
unfoldable pub derive_shard_key : Primitives → Bytes → ℤ → Result CryptoError Bytes
unfolding derive_sub_key
derive_shard_key c file_key shard_index =
    derive_sub_key c file_key [] (text "cerclbackup-shard-key-v1-" ++ itoa shard_index)

-- aes.NewCipher takes keys of 16, 24 and 32 bytes.
unfoldable pub new_cipher : Bytes → Result CryptoError (Unit {0})
new_cipher key =
    if length key == 16 || (length key == 24 || length key == 32) then ok tt else err bad_key

-- The nonce size of GCM.
abbrev pub nonce_size : ℕ
nonce_size = 12

-- Encrypt(key, plaintext); `nonce` is what rand.Reader gave.
unfoldable pub encrypt : Primitives → Option Bytes → Bytes → Bytes → Result CryptoError Bytes
unfolding new_cipher
encrypt c nonce key plaintext = do
  new_cipher key
  elim nonce [ none ↦ err no_nonce | some n ↦ ok (n ++ c.seal key n plaintext) ]

-- Decrypt(key, blob)
unfoldable pub decrypt : Primitives → Bytes → Bytes → Result CryptoError Bytes
unfolding new_cipher
decrypt c key blob = do
  new_cipher key
  if ltb (length blob) nonce_size
      then err blob_too_short
      else elim (c.unseal key (take nonce_size blob) (drop nonce_size blob)) [
        | none ↦ err decrypt_failed
        | some plaintext ↦ ok plaintext
      ]

-- EncryptShard(fileKey, shardIndex, plaintext)
unfoldable pub encrypt_shard :
    Primitives → Option Bytes → Bytes → ℤ → Bytes → Result CryptoError Bytes
unfolding derive_shard_key encrypt
encrypt_shard c nonce file_key shard_index plaintext = do
  shard_key ← derive_shard_key c file_key shard_index
  encrypt c nonce shard_key plaintext

-- DecryptShard(fileKey, shardIndex, blob)
unfoldable pub decrypt_shard : Primitives → Bytes → ℤ → Bytes → Result CryptoError Bytes
unfolding derive_shard_key decrypt
decrypt_shard c file_key shard_index blob = do
  shard_key ← derive_shard_key c file_key shard_index
  decrypt c shard_key blob
