-- ===== src/Backup.antt =====
-- internal/api/backup.go: one file chunked, compressed, coded, encrypted, stored and entered into the
-- manifest.
pub mod Stored
pub mod Contents
use cerclbackup.Prelude.{
  ℕ, ◌+◌, Bool, true, Option, none, some, List, [], ◌∷◌, ◌++◌, leb, nat_eq, list_eq, Bytes, Text,
  text, length, take, insert, Result, ok, err,
}
use cerclbackup.Io.{Reader}
use cerclbackup.Chunker.{Chunk, default_chunk_size, ChunkError, chunk_file}
use cerclbackup.Protocol.{RsScheme, ShardLocation, ManifestEntry}
use cerclbackup.Codec.{CodecError, Encoder, split_chunk_to_shards}
use cerclbackup.Codec.Coder.{Backend}
use cerclbackup.Compress.{Zstd, CompressError, compress}
use cerclbackup.Crypto.{Primitives, CryptoError, derive_file_key, encrypt_shard}
use cerclbackup.Storage.{ShardMeta, StorageError, store_put}
use cerclbackup.Files.{FilePath, Tree}
use cerclbackup.Files.Decimal.{pos, itoa}
use cerclbackup.Hex.{to_hex}
use cerclbackup.Manifest.{Entries, ManifestError, Upload, upsert}

-- What the pipelines call outside the program, with the store's directory. `new_coder` is
-- reedsolomon.New behind codec.NewEncoder.
pub record Tools : Type 0 where
  pub sha256 : Bytes → Bytes
  pub zstd : Zstd
  pub crypto : Primitives
  pub new_coder : RsScheme → Option Backend
  pub root : FilePath
  pub marshal : List ShardMeta → Option Bytes
  pub unmarshal : Bytes → Option (List ShardMeta)

-- Each step's error; `out_of_fuel` is for a loop that has not ended.
pub data BackupError : Type 0 where
  out_of_fuel bad_scheme : BackupError
  chunk_failed : ChunkError → BackupError
  crypto_failed : CryptoError → BackupError
  compress_failed : CompressError → BackupError
  codec_failed : CodecError → BackupError
  store_failed : StorageError → BackupError
  manifest_failed : ManifestError → BackupError

-- The hashes of the chunks, one behind the other.
unfoldable pub hashes_of : List Chunk → Bytes
hashes_of [] = []
hashes_of (c ∷ cs) = c.hash ++ hashes_of cs

-- fileHashFromChunks
unfoldable pub file_hash_from_chunks : Tools → List Chunk → Bytes
unfolding hashes_of
file_hash_from_chunks tools cs = tools.sha256 (hashes_of cs)

-- fileIDFromHash
unfoldable pub file_id_from_hash : Bytes → Text
file_id_from_hash h = to_hex (take 8 h)

-- The entry that is made for shard `si` of chunk `ci`, with the index `counter`.
unfoldable pub location : ℕ → Bool → ℕ → ℕ → ShardLocation
location counter parity ci si = record {
  shard_index = counter;
  is_parity = parity;
  buddy_id = text "local";
  storage_key = text "chunk" ++ (itoa (pos ci) ++ (text "-shard" ++ itoa (pos si)));
}

-- codec.NewEncoder(scheme)
unfoldable pub new_encoder : Tools → RsScheme → Option Encoder
new_encoder tools scheme = elim (tools.new_coder scheme) [
  | none ↦ none
  | some rs ↦ some (record { rs = rs; scheme = scheme })
]

-- `file_key` and `id` are the file's key and its name in the store, `nonces` what rand.Reader gives
-- for each shard.
module _ (tools : Tools) (nonces : ℕ → Option Bytes) (file_key : Bytes) (id : Text) where
  -- The loop over the shards of one chunk, from shard `si` and index `counter` on: the locations, and
  -- the disk from then on.
  unfoldable pub store_shards :
      ℕ → ℕ → ℕ → ℕ → List Bytes → Tree → Result BackupError (List ShardLocation) × Tree
  unfolding location
  store_shards data_shards ci si counter [] t = (ok [], t)
  store_shards data_shards ci si counter (shard ∷ shards) t =
      let parity : Bool = leb data_shards si in
      elim (encrypt_shard tools.crypto (nonces counter) file_key (pos counter) shard) [
        | err x ↦ (err (crypto_failed x), t)
        | ok blob ↦
            let (stored, t1) =
              store_put tools.root tools.marshal tools.unmarshal t id (pos counter) parity blob in
            let (rest, t2) = store_shards data_shards ci (si + 1) (counter + 1) shards t1 in
            elim stored [
              | err x ↦ (err (store_failed x), t1)
              | ok u ↦ elim rest [
                | err x ↦ (err x, t2)
                | ok locations ↦ (ok (location counter parity ci si ∷ locations), t2)
              ]
            ]
      ]

  -- Compress and SplitChunkToShards for one chunk.
  unfoldable pub coded_chunk : Encoder → Chunk → Result BackupError (List Bytes)
  coded_chunk enc c = elim (compress tools.zstd (take c.size c.bytes)) [
    | err x ↦ err (compress_failed x)
    | ok packed ↦ elim (split_chunk_to_shards enc packed) [
      | err x ↦ err (codec_failed x)
      | ok shards ↦ ok shards
    ]
  ]

  -- The loop over the chunks.
  unfoldable pub store_chunks :
      Encoder → ℕ → List Chunk → Tree → Result BackupError (List ShardLocation) × Tree
  unfolding coded_chunk store_shards
  store_chunks enc counter [] t = (ok [], t)
  store_chunks enc counter (c ∷ cs) t = elim (coded_chunk enc c) [
    | err x ↦ (err x, t)
    | ok shards ↦
        let (front, t1) = store_shards enc.scheme.data_shards c.index 0 counter shards t in
        let (rest, t2) = store_chunks enc (counter + length shards) cs t1 in
        elim front [
          | err x ↦ (err x, t1)
          | ok locations ↦ elim rest [
            | err x ↦ (err x, t2)
            | ok more ↦ (ok (locations ++ more), t2)
          ]
        ]
  ]

-- What backupOneFile is told of the file: what os.Open gives, its size, the time that Upsert's
-- os.Stat finds, the new UUID and the time.
pub record Source : Type 0 where
  pub path : Text
  pub opened : Option Reader
  pub size : ℕ
  pub stat : Option ℕ
  pub uuid : Text
  pub now : ℕ

-- Behind the chunking: the key, the coder, and the loop. The file's hash and the locations.
unfoldable pub store_file :
    Tools
    → (ℕ → Option Bytes)
    → Bytes
    → RsScheme
    → List Chunk
    → Tree
    → Result BackupError (Bytes × List ShardLocation) × Tree
unfolding store_chunks new_encoder file_id_from_hash
store_file tools nonces master_key scheme cs t =
    let hash = file_hash_from_chunks tools cs in
    elim (derive_file_key tools.crypto master_key hash) [
      | err x ↦ (err (crypto_failed x), t)
      | ok key ↦ elim (new_encoder tools scheme) [
        | none ↦ (err bad_scheme, t)
        | some enc ↦
            let (stored, t1) = store_chunks tools nonces key (file_id_from_hash hash) enc 0 cs t in
            elim stored [ err x ↦ (err x, t1) | ok locations ↦ (ok (hash, locations), t1) ]
      ]
    ]

-- What chunker.ChunkFile returned.
unfoldable pub chunked : Option (Result ChunkError (List Chunk)) → Result BackupError (List Chunk)
chunked none = err out_of_fuel
chunked (some (err x)) = err (chunk_failed x)
chunked (some (ok cs)) = ok cs

unfoldable pub upload : Source → RsScheme → Bytes → List ShardLocation → Upload
upload src scheme hash locations = record {
  src_path = src.path;
  stat = src.stat;
  id = src.uuid;
  now = src.now;
  hex = to_hex hash;
  size = src.size;
  scheme = scheme;
  shards = locations;
}

-- The entry of the file. Compressed is set on the entry that the manifest holds.
unfoldable pub enter_file :
    Source
    → RsScheme
    → Bytes × List ShardLocation
    → Entries
    → Result BackupError (ManifestEntry × Entries)
unfolding upload
enter_file src scheme (hash, locations) m = elim (upsert (upload src scheme hash locations) m) [
  | err x ↦ err (manifest_failed x)
  | ok (entry, m') ↦
      let packed = record entry { compressed = true } in ok (packed, insert src.uuid packed m')
]

-- backupOneFile up to the delivery to buddies: the new entry, the disk, the manifest.
unfoldable pub backup_one_file :
    Tools
    → (ℕ → Option Bytes)
    → Bytes
    → RsScheme
    → Source
    → Tree
    → Entries
    → Result BackupError ManifestEntry × Tree × Entries
unfolding store_file chunked enter_file
backup_one_file tools nonces master_key scheme src t m =
    elim (chunked (chunk_file tools.sha256 src.opened default_chunk_size)) [
      | err x ↦ (err x, t, m)
      | ok cs ↦
          let (stored, t1) = store_file tools nonces master_key scheme cs t in
          elim stored [
            | err x ↦ (err x, t1, m)
            | ok result ↦ elim (enter_file src scheme result m) [
              | err x ↦ (err x, t1, m)
              | ok (entry, m') ↦ (ok entry, t1, m')
            ]
          ]
    ]
