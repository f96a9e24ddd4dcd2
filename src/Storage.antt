-- ===== src/Storage.antt =====
-- internal/storage/store.go: the owner's own encrypted shards, a directory for each file, with the
-- metadata of its shards beside them.
pub mod Shards
pub mod Refinement
pub mod Examples
use cerclbackup.Prelude.{
  ℕ, Bool, true, false, Option, none, some, List, [], ◌∷◌, ◌++◌, if◌then◌else◌, ◌==◌, nat_eq,
  list_eq, Bytes, Text, text, length, Result, ok, err, ◌>>=◌, ◌>>◌,
}
use cerclbackup.Files.{FilePath, join, Tree, TreeError, read_file, write_file, remove_all}
use cerclbackup.Files.Decimal.{ℤ, pos, negsuc}
use cerclbackup.BuddyStore.{shard_name}

pub record ShardMeta : Type 0 where
  pub file_id : Text
  pub shard_index : ℤ
  pub is_parity : Bool
  pub size : ℕ

pub data StorageError : Type 0 where
  disk_failed : TreeError → StorageError
  meta_unparsed meta_unmarshalled : StorageError

-- What the disk says, as an error of the store.
unfoldable pub from_disk {ℓ} : {A : Type ℓ} → Result TreeError A → Result StorageError A
from_disk (ok a) = ok a
from_disk (err x) = err (disk_failed x)

-- Equality of shard indices.
unfoldable pub same_index : ℤ → ℤ → Bool
same_index (pos m) (pos n) = m == n
same_index (negsuc m) (negsuc n) = m == n
same_index _ _ = false

-- The loop of Put over the metadata: the first entry of the index is set, and whether there was one.
unfoldable pub update_meta : ℤ → Bool → ℕ → List ShardMeta → List ShardMeta × Bool
unfolding same_index
update_meta index parity size [] = ([], false)
update_meta index parity size (m ∷ ms) =
    let (rest, updated) = update_meta index parity size ms in
    if same_index m.shard_index index
    then (record m { is_parity = parity; size = size } ∷ ms, true)
    else (m ∷ rest, updated)

-- The metadata that Put writes.
unfoldable pub put_meta : Text → ℤ → Bool → ℕ → List ShardMeta → List ShardMeta
unfolding update_meta
put_meta file index parity size meta =
    let (set, updated) = update_meta index parity size meta in
    if updated
    then set
    else set
      ++ (record { file_id = file; shard_index = index; is_parity = parity; size = size } ∷ [])

-- `root` is the directory of the store; `marshal` and `unmarshal` are encoding/json at []ShardMeta.
module _ (root : FilePath) (marshal : List ShardMeta → Option Bytes)
    (unmarshal : Bytes → Option (List ShardMeta)) where
  -- shardPath and metaPath: no check of the file's name.
  unfoldable pub own_shard_path : Text → ℤ → FilePath
  own_shard_path file index = join root (file ∷ shard_name index ∷ [])

  unfoldable pub meta_path : Text → FilePath
  meta_path file = join root (file ∷ text "meta.json" ∷ [])

  -- readMeta
  unfoldable pub read_meta : Tree → Text → Result StorageError (List ShardMeta)
  unfolding from_disk meta_path
  read_meta t file = do
    blob ← from_disk (read_file t (meta_path file))
    elim (unmarshal blob) [ none ↦ err meta_unparsed | some meta ↦ ok meta ]

  -- writeMeta
  unfoldable pub write_meta : Tree → Text → List ShardMeta → Result StorageError Tree
  unfolding from_disk meta_path
  write_meta t file meta = elim (marshal meta) [
    | none ↦ err meta_unmarshalled
    | some blob ↦ from_disk (write_file t (meta_path file) blob)
  ]

  -- Meta as Put reads it: none, if it cannot be read.
  unfoldable pub known_meta : Tree → Text → List ShardMeta
  unfolding read_meta
  known_meta t file = elim (read_meta t file) [ err x ↦ [] | ok meta ↦ meta ]

  -- Put(fileID, shardIndex, isParity, data): the outcome, and the disk from then on. A shard that is
  -- written stays when its metadata cannot be.
  unfoldable pub store_put : Tree → Text → ℤ → Bool → Bytes → Result StorageError (Unit {0}) × Tree
  unfolding own_shard_path known_meta write_meta put_meta
  store_put t file index parity shard = elim (write_file t (own_shard_path file index) shard) [
    | err x ↦ (err (disk_failed x), t)
    | ok t1 ↦
        elim (write_meta t1 file (put_meta file index parity (length shard) (known_meta t1 file))) [
          | err x ↦ (err x, t1)
          | ok t2 ↦ (ok tt, t2)
        ]
  ]

  -- Get(fileID, shardIndex)
  unfoldable pub store_get : Tree → Text → ℤ → Result StorageError Bytes
  unfolding own_shard_path from_disk
  store_get t file index = from_disk (read_file t (own_shard_path file index))

  -- Delete(fileID)
  unfoldable pub store_delete : Tree → Text → Result StorageError Tree
  unfolding from_disk
  store_delete t file = from_disk (remove_all t (join root (file ∷ [])))
