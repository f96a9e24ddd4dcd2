-- ===== src/Crypto/Examples.antt =====
-- A shard that is sealed and opened by a toy cipher.
use cerclbackup.Prelude.{◌≡◌, refl, some, [], ◌∷◌, Bytes, drop, replicate, ok}
use cerclbackup.Files.Decimal.{pos}
use cerclbackup.Crypto.{Primitives, encrypt_shard, decrypt_shard}
use cerclbackup.Crypto.RoundTrip.{IsAead, decrypt_shard-encrypt_shard}

abbrev toy : Primitives
toy = record {
  expand = λ secret salt info. some (replicate 32 1);
  seal = λ key nonce plaintext. 9 ∷ plaintext;
  unseal = λ key nonce blob. some (drop 1 blob);
}

toy-IsAead : IsAead toy
toy-IsAead = record {
  opens = λ key nonce plaintext. refl;
  expands = λ secret salt info. (replicate 32 1, refl, refl);
}

decrypt_shard-encrypt_shard_example :
    (blob : Bytes) × (encrypt_shard toy (some (replicate 12 0)) (1 ∷ []) (pos 2) (5 ∷ 6 ∷ [])
      ≡ ok blob)
    × (decrypt_shard toy (1 ∷ []) (pos 2) blob ≡ ok (5 ∷ 6 ∷ []))
decrypt_shard-encrypt_shard_example =
    decrypt_shard-encrypt_shard toy (1 ∷ []) (replicate 12 0) (5 ∷ 6 ∷ []) (pos 2) toy-IsAead refl
