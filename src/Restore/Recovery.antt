-- ===== src/Restore/Recovery.antt =====
-- An entry whose chunks are in the store is restored from what is left of their shards.
use cerclbackup.Prelude.{
  ℕ, zero, suc, ◌*◌, ◌/◌, ◌%◌, ◌^◌, ◌≤◌, ◌<◌, ◌≡◌, refl, sym, ap, ◌∙◌, subst, true, Option, none,
  some, List, [], ◌∷◌, ◌++◌, arith, beq_iff, nat_eq, list_eq, Bytes, Text, length, take, All,
  length-take, ok,
}
use cerclbackup.Chunker.{Chunk, default_chunk_size}
use cerclbackup.Protocol.{RsScheme, total_shards, ManifestEntry}
use cerclbackup.Codec.{Encoder}
use cerclbackup.Codec.Coder.{Backend, Damaged, IsReedSolomon}
use cerclbackup.Compress.RoundTrip.{IsZstd}
use cerclbackup.Crypto.{derive_file_key, encrypt_shard, decrypt_shard}
use cerclbackup.Crypto.RoundTrip.{IsAead, decrypt_shard-encrypt_shard}
use cerclbackup.Files.{Tree}
use cerclbackup.Files.Decimal.{pos}
use cerclbackup.Files.Paths.{IsPlain}
use cerclbackup.Hex.{to_hex, AllBytes, from_hex-to_hex, to_hex-NoSlash, length-to_hex}
use cerclbackup.Backup.{Tools, hashes_of, file_hash_from_chunks, file_id_from_hash, new_encoder}
use cerclbackup.Backup.Contents.{contents_of, IsHashed, hashed_contents_of}
use cerclbackup.Backup.Stored.{Decrypts, Backed}
use cerclbackup.Restore.{hex_to_hash, Network, raw_shards, restore_loop, checked, restore_entry}
use cerclbackup.Restore.Chunks.{restore_loop_lem}
use cerclbackup.Restore.Groups.{alone, EnoughLeft, length-Backed, Backed-Recoverable}
use native.Mathlib.Nat.{mul-div_left, mul-mod_left}
use mathlib.Core.Path.{ap₂}

-- What the pipelines rely on: zstd, GCM and HKDF as documented, SHA-256 with 32 bytes, frames of
-- chunks below 2^32 bytes, and a nonce for each shard.
pub record IsFaithful (tools : Tools) (nonces : ℕ → Option Bytes) : Type 0 where
  pub zstd_laws : IsZstd tools.zstd
  pub aead_laws : IsAead tools.crypto
  pub digest : (b : Bytes) → (length (tools.sha256 b) ≡ 32) × AllBytes (tools.sha256 b)
  pub frames :
      (b : Bytes) → length b ≤ default_chunk_size → length (tools.zstd.encode_all b) < 2 ^ 32
  pub random : (i : ℕ) → (n : Bytes) × (nonces i ≡ some n) × (length n ≡ 12)

-- A Reed-Solomon coder for the scheme.
pub record IsCoder (tools : Tools) (s : RsScheme) (rs : Backend) : Type 0 where
  pub made : tools.new_coder s ≡ some rs
  pub code_laws : IsReedSolomon rs s
  pub some_data : 0 < s.data_shards

take-AllBytes : (n : ℕ) (b : Bytes) → AllBytes b → AllBytes (take n b)
take-AllBytes zero b a = tt
take-AllBytes (suc n) [] a = tt
take-AllBytes (suc n) (x ∷ b) (h, a) = (h, take-AllBytes n b a)

pub file_id-IsPlain : (h : Bytes) → length h ≡ 32 → AllBytes h → IsPlain (file_id_from_hash h)
unfolding file_id_from_hash
file_id-IsPlain h l a =
    let sixteen : length (to_hex (take 8 h)) ≡ 16 =
      length-to_hex (take 8 h) ∙ omega (arith, length-take 8 h) in
    record {
      no_slash = to_hex-NoSlash (take 8 h) (take-AllBytes 8 h a);
      not_empty = λ e. absurd (omega (arith, sixteen, ap length e));
      not_dot = λ e. absurd (omega (arith, sixteen, ap length e));
      not_dots = λ e. absurd (omega (arith, sixteen, ap length e));
    }

pub hex_to_hash-to_hex : (h : Bytes) → length h ≡ 32 → AllBytes h → hex_to_hash (to_hex h) ≡ some h
unfolding hex_to_hash
hex_to_hash-to_hex h l a = ground (arith, from_hex-to_hex h a, l)

module _ (tools : Tools) (nonces : ℕ → Option Bytes) where
  hashed_contents-hashes_of :
      (cs : List Chunk)
      → All (IsHashed tools.sha256 default_chunk_size) cs
      → hashed_contents_of tools.sha256 cs ≡ hashes_of cs
  unfolding hashes_of
  hashed_contents-hashes_of [] a = refl
  hashed_contents-hashes_of (c ∷ cs) ((h, _), a) =
      ap₂ (λ (x y : Bytes). x ++ y) (sym h) (hashed_contents-hashes_of cs a)

  pub Decrypts_lem :
      (file_key : Bytes) (id : Text) (plain : IsPlain id)
      → IsFaithful tools nonces
      → Decrypts tools nonces file_key id plain
  Decrypts_lem file_key id plain laws index shard blob e =
      let (nonce, r, l) = laws.random index in
      let (made, sealed, opened) =
        decrypt_shard-encrypt_shard tools.crypto file_key nonce shard (pos index) laws.aead_laws
          l in
      let same : made ≡ blob = ground (
        arith,
        sealed,
        e,
        ap (λ (n : Option Bytes). encrypt_shard tools.crypto n file_key (pos index) shard) r,
      ) in
      subst (λ (b : Bytes). decrypt_shard tools.crypto file_key (pos index) b ≡ ok shard) same
        opened

  -- Behind the loop, when it gave the hashes that the entry's hash was made of.
  pub restore_entry_lem :
      (net : Network) (master_key hash key hashes content : Bytes) (rs : Backend) (t : Tree)
      (entry : ManifestEntry) (chunks : ℕ) (scheme : RsScheme)
      → entry.scheme ≡ scheme
      → hex_to_hash entry.hash ≡ some hash
      → derive_file_key tools.crypto master_key hash ≡ ok key
      → tools.new_coder scheme ≡ some rs
      → length entry.shards % total_shards scheme ≡ 0
      → length entry.shards / total_shards scheme ≡ chunks
      → restore_loop tools net key
          (file_id_from_hash hash)
          t
          (record { rs = rs; scheme = scheme })
          entry
          chunks
          entry.shards
          []
          (record { written = []; room = none })
        ≡ (ok hashes, record { written = content; room = none })
      → to_hex (tools.sha256 hashes) ≡ entry.hash
      → restore_entry tools net master_key (some (record { written = []; room = none })) t entry
        ≡ (ok entry, some content)
  unfolding restore_entry checked new_encoder
  restore_entry_lem net master_key hash key hashes content rs t entry chunks scheme at h k n even
        count loop same =
      ground (
        arith,
        at,
        h,
        k,
        n,
        even,
        count,
        loop,
        same,
        beq_iff (to_hex (tools.sha256 hashes)) entry.hash,
      )

  -- The hash of a file has 32 bytes.
  pub digest_of_chunks :
      (cs : List Chunk)
      → IsFaithful tools nonces
      → (length (file_hash_from_chunks tools cs) ≡ 32) × AllBytes (file_hash_from_chunks tools cs)
  unfolding file_hash_from_chunks
  digest_of_chunks cs laws = laws.digest (hashes_of cs)

  pub id_of_chunks-IsPlain :
      (cs : List Chunk)
      → IsFaithful tools nonces
      → IsPlain (file_id_from_hash (file_hash_from_chunks tools cs))
  id_of_chunks-IsPlain cs laws =
      let (long, bytes) = digest_of_chunks cs laws in
      file_id-IsPlain (file_hash_from_chunks tools cs) long bytes

  -- An entry that stands for chunks in the store has as many groups of shards as there are chunks.
  pub groups_of_entry :
      (key : Bytes) (scheme : RsScheme) (rs : Backend) (cs : List Chunk) (t1 : Tree)
      (entry : ManifestEntry) (laws : IsFaithful tools nonces)
      → IsCoder tools scheme rs
      → All (IsHashed tools.sha256 default_chunk_size) cs
      → Backed tools nonces key
          (file_id_from_hash (file_hash_from_chunks tools cs))
          (id_of_chunks-IsPlain cs laws)
          (record { rs = rs; scheme = scheme })
          t1
          0
          cs
          entry.shards
      → (length entry.shards / total_shards scheme ≡ length cs)
        × (length entry.shards % total_shards scheme ≡ 0)
  unfolding total_shards
  groups_of_entry key scheme rs cs t1 entry laws coder hashed here =
      let total : length entry.shards ≡ length cs * total_shards scheme =
        length-Backed tools key (file_id_from_hash (file_hash_from_chunks tools cs)) nonces
          (id_of_chunks-IsPlain cs laws) t1 (record { rs = rs; scheme = scheme }) coder.code_laws
          coder.some_data laws.zstd_laws laws.frames 0 cs entry.shards hashed here in
      let some_shards : 0 < total_shards scheme = omega (arith, coder.some_data) in
      (
        ap (λ (i : ℕ). i / total_shards scheme) total ∙ mul-div_left (length cs) some_shards,
        ap (λ (i : ℕ). i % total_shards scheme) total
            ∙ mul-mod_left (length cs) (total_shards scheme),
      )

  -- Such an entry is restored from what is left of its shards.
  pub restore_entry-Backed :
      (master_key key : Bytes) (scheme : RsScheme) (rs : Backend) (cs : List Chunk) (t1 t2 : Tree)
      (entry : ManifestEntry) (net : Network) (laws : IsFaithful tools nonces)
      → IsCoder tools scheme rs
      → All (IsHashed tools.sha256 default_chunk_size) cs
      → derive_file_key tools.crypto master_key (file_hash_from_chunks tools cs) ≡ ok key
      → Backed tools nonces key
          (file_id_from_hash (file_hash_from_chunks tools cs))
          (id_of_chunks-IsPlain cs laws)
          (record { rs = rs; scheme = scheme })
          t1
          0
          cs
          entry.shards
      → entry.scheme ≡ scheme
      → entry.compressed ≡ true
      → entry.hash ≡ to_hex (file_hash_from_chunks tools cs)
      → Damaged
          (raw_shards tools alone key
            (file_id_from_hash (file_hash_from_chunks tools cs))
            t1
            entry.shards)
          (raw_shards tools net key
            (file_id_from_hash (file_hash_from_chunks tools cs))
            t2
            entry.shards)
      → EnoughLeft scheme (length cs) (
          raw_shards tools net key
            (file_id_from_hash (file_hash_from_chunks tools cs))
            t2
            entry.shards)
      → restore_entry tools net master_key (some (record { written = []; room = none })) t2 entry
        ≡ (ok entry, some (contents_of cs))
  unfolding file_hash_from_chunks
  restore_entry-Backed master_key key scheme rs cs t1 t2 entry net laws coder hashed derived here
        at_scheme packed at_hash damaged enough =
      let h0 : Bytes = file_hash_from_chunks tools cs in
      let enc : Encoder = record { rs = rs; scheme = scheme } in
      let (long, bytes) = digest_of_chunks cs laws in
      let (groups, even) = groups_of_entry key scheme rs cs t1 entry laws coder hashed here in
      let recoverable =
        Backed-Recoverable tools key (file_id_from_hash h0) nonces (id_of_chunks-IsPlain cs laws) t1
          enc coder.code_laws coder.some_data laws.zstd_laws laws.frames net t2 0 cs entry.shards
          hashed here damaged enough in
      let loop =
        restore_loop_lem tools enc coder.code_laws coder.some_data laws.zstd_laws key
          (file_id_from_hash h0) net t2 nonces entry cs entry.shards []
          (record { written = []; room = none }) packed refl recoverable in
      let agrees : to_hex (tools.sha256 (hashed_contents_of tools.sha256 cs)) ≡ entry.hash =
        ap (λ (b : Bytes). to_hex (tools.sha256 b)) (hashed_contents-hashes_of cs hashed)
        ∙ sym at_hash in
      restore_entry_lem net master_key h0 key (hashed_contents_of tools.sha256 cs) (contents_of cs)
        rs t2 entry (length cs) scheme at_scheme
        (ap hex_to_hash at_hash ∙ hex_to_hash-to_hex h0 long bytes) derived coder.made even groups
        loop agrees
