-- ===== src/Restore.antt =====
-- internal/api/restore.go: a version chosen from the manifest, its shards fetched, decrypted, merged
-- and checked.
pub mod Chunks
pub mod Groups
pub mod Recovery
pub mod RoundTrip
pub mod Integrity
pub mod Examples
use cerclbackup.Prelude.{
  ℕ, zero, suc, ◌/◌, ◌%◌, Bool, not, ◌&&◌, Option, none, some, List, [], ◌∷◌, ◌++◌, ltb,
  if◌then◌else◌, ◌==◌, nat_eq, list_eq, Bytes, Text, text, length, take, drop, lookup, Result, ok,
  err,
}
use cerclbackup.Io.{IoError, Writer, write}
use cerclbackup.Chunker.{default_chunk_size}
use cerclbackup.Protocol.{total_shards, ShardLocation, ManifestEntry}
use cerclbackup.Codec.{CodecError, Encoder, merge_shard_to_chunk}
use cerclbackup.Compress.{CompressError, decompress}
use cerclbackup.Crypto.{CryptoError, derive_file_key, decrypt_shard}
use cerclbackup.Storage.{store_get}
use cerclbackup.Files.{Tree}
use cerclbackup.Files.Decimal.{pos}
use cerclbackup.Hex.{to_hex, from_hex}
use cerclbackup.Manifest.{Entries, values, latest, sink, list_versions}
use cerclbackup.Backup.{Tools, file_id_from_hash, new_encoder}

-- Which version is asked for: by its FileID, or by its path and version, where 0 is the latest.
pub record Request : Type 0 where
  pub file_id : Text
  pub file_path : Text
  pub version : ℕ

pub data RestoreError : Type 0 where
  not_found bad_hash unknown_scheme uneven_shards not_created integrity_failed : RestoreError
  key_failed : CryptoError → RestoreError
  not_merged : CodecError → RestoreError
  decompress_failed : CompressError → RestoreError
  output_failed : IoError → RestoreError

-- The loop over ListVersions.
unfoldable pub with_version : ℕ → List ManifestEntry → Option ManifestEntry
with_version version [] = none
with_version version (e ∷ es) = if e.version == version then some e else with_version version es

-- The entry that is restored, if the request names one that is there.
unfoldable pub chosen_entry : Request → Entries → Option ManifestEntry
unfolding with_version
chosen_entry r m =
    if r.file_id == text "" && r.file_path == text ""
    then none
    else if not (r.file_id == text "")
    then lookup r.file_id m
    else if ltb 0 r.version
    then with_version r.version (list_versions r.file_path (values m))
    else latest r.file_path (values m)

-- hexToHash
unfoldable pub hex_to_hash : Text → Option Bytes
hex_to_hash s = elim (from_hex s) [ none ↦ none | some b ↦ if length b == 32 then some b else none ]

-- tryFetchFromBuddies: the PeerIDs of the registry's entries in order; `fetch` is peer.Decode and
-- FetchShard of one shard from one peer.
unfoldable pub try_fetch_from_buddies : (Text → Option Bytes) → List Text → Option Bytes
try_fetch_from_buddies fetch [] = none
try_fetch_from_buddies fetch (peer ∷ peers) =
    let rest = try_fetch_from_buddies fetch peers in
    elim (fetch peer) [ some blob ↦ some blob | none ↦ rest ]

-- The buddies that can be asked: none without a host or a registry. `ask` is what each peer sends
-- for a shard index.
pub record Network : Type 0 where
  pub buddies : Option (List Text)
  pub ask : Text → ℕ → Option Bytes

unfoldable pub from_buddies : Network → ℕ → Option Bytes
unfolding try_fetch_from_buddies
from_buddies net index = elim net.buddies [
  | none ↦ none
  | some peers ↦ try_fetch_from_buddies (λ peer. net.ask peer index) peers
]

-- `file_key` is the key of the file, `id` its name in the store.
module _ (tools : Tools) (net : Network) (file_key : Bytes) (id : Text) (t : Tree) where
  -- The encrypted shard, from the store or else from a buddy.
  unfoldable pub obtained : ℕ → Option Bytes
  unfolding from_buddies
  obtained index = elim (store_get tools.root tools.marshal tools.unmarshal t id (pos index)) [
    | ok blob ↦ some blob
    | err x ↦ from_buddies net index
  ]

  -- A shard, or nothing if it is missing or does not decrypt; nil and empty are the same.
  unfoldable pub raw_shard : ℕ → Bytes
  unfolding obtained
  raw_shard index = elim (obtained index) [
    | none ↦ []
    | some blob ↦ elim (decrypt_shard tools.crypto file_key (pos index) blob) [
      | err x ↦ []
      | ok shard ↦ shard
    ]
  ]

  unfoldable pub raw_shards : List ShardLocation → List Bytes
  unfolding raw_shard
  raw_shards [] = []
  raw_shards (loc ∷ locations) = raw_shard loc.shard_index ∷ raw_shards locations

  -- What a merged chunk is worth: decompressed, or cut to the size that it must have.
  unfoldable pub unpacked : ManifestEntry → Bool → Bytes → Result RestoreError Bytes
  unpacked entry is_last merged =
      if entry.compressed
      then (elim (decompress tools.zstd merged) [ err x ↦ err (decompress_failed x) | ok b ↦ ok b ])
      else (let rem : ℕ = entry.size % default_chunk_size in
          let expected : ℕ = if is_last && not (rem == 0) then rem else default_chunk_size in
          if ltb expected (length merged) then ok (take expected merged) else ok merged)

  unfoldable pub chunk_data :
      Encoder → ManifestEntry → Bool → List ShardLocation → Result RestoreError Bytes
  unfolding raw_shards unpacked
  chunk_data enc entry is_last locations = elim (merge_shard_to_chunk enc (raw_shards locations)) [
    | err x ↦ err (not_merged x)
    | ok merged ↦ unpacked entry is_last merged
  ]

  -- The loop over the chunks that are left, with their locations: the hashes of the chunks, one behind
  -- the other, and the output from then on.
  unfoldable pub restore_loop :
      Encoder
      → ManifestEntry
      → ℕ
      → List ShardLocation
      → Bytes
      → Writer
      → Result RestoreError Bytes × Writer
  unfolding chunk_data
  restore_loop enc entry zero locations hashes out = (ok hashes, out)
  restore_loop enc entry (suc chunks) locations hashes out =
      let per_chunk : ℕ = total_shards enc.scheme in
      elim (chunk_data enc entry (chunks == 0) (take per_chunk locations)) [
        | err x ↦ (err x, out)
        | ok b ↦ elim (write out b) [
          | err x ↦ (err (output_failed x), out)
          | ok out' ↦
              restore_loop enc entry chunks (drop per_chunk locations) (hashes ++ tools.sha256 b)
                out'
        ]
      ]

-- Behind the loop: the check of the hash, which removes the output if it fails.
unfoldable pub checked :
    Tools
    → ManifestEntry
    → Result RestoreError Bytes × Writer
    → Result RestoreError ManifestEntry × Option Bytes
checked tools entry (err x, out) = (err x, some out.written)
checked tools entry (ok hashes, out) =
    if not (entry.hash == text "") && not (to_hex (tools.sha256 hashes) == entry.hash)
    then (err integrity_failed, none)
    else (ok entry, some out.written)

-- Behind the choice of the entry: the outcome, and the output file if one was made. `sink` is what
-- os.Create gives, if it succeeds: an empty file that takes all or some bytes.
unfoldable pub restore_entry :
    Tools
    → Network
    → Bytes
    → Option Writer
    → Tree
    → ManifestEntry
    → Result RestoreError ManifestEntry × Option Bytes
unfolding hex_to_hash restore_loop checked
restore_entry tools net master_key sink t entry = elim (hex_to_hash entry.hash) [
  | none ↦ (err bad_hash, none)
  | some hash ↦ elim (derive_file_key tools.crypto master_key hash) [
    | err x ↦ (err (key_failed x), none)
    | ok key ↦ elim (new_encoder tools entry.scheme) [
      | none ↦ (err unknown_scheme, none)
      | some enc ↦
          let per_chunk : ℕ = total_shards entry.scheme in
          let count : ℕ = length entry.shards in
          if not (count % per_chunk == 0) then (err uneven_shards, none) else elim sink [
            | none ↦ (err not_created, none)
            | some out ↦ checked tools entry (
                restore_loop tools net key (file_id_from_hash hash) t enc entry (count / per_chunk)
                  entry.shards [] out)
          ]
    ]
  ]
]

-- Restore of a request with an output path and a password, with the parts opened.
unfoldable pub restore :
    Tools
    → Network
    → Bytes
    → Option Writer
    → Tree
    → Entries
    → Request
    → Result RestoreError ManifestEntry × Option Bytes
unfolding chosen_entry restore_entry
restore tools net master_key sink t m r = elim (chosen_entry r m) [
  | none ↦ (err not_found, none)
  | some entry ↦ restore_entry tools net master_key sink t entry
]
