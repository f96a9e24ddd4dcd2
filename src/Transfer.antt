-- ===== src/Transfer.antt =====
-- internal/api/data.go: the shards that Export packs, and what Import does with those of an archive.
pub mod Shards
pub mod Examples
use cerclbackup.Manifest.Persist
use cerclbackup.Prelude.{
  ℕ, zero, suc, ◌+◌, Bool, Option, none, some, List, [], ◌∷◌, ltb, leb, if◌then◌else◌, ◌==◌, nat_eq,
  list_eq, Bytes, Text, length, lookup, Result, ok, err,
}
use cerclbackup.Disk.{File, DiskError}
use cerclbackup.Files.{Tree}
use cerclbackup.Files.Decimal.{pos}
use cerclbackup.Protocol.{total_shards, ManifestEntry}
use cerclbackup.Storage.{StorageError, store_put, store_get}
use cerclbackup.Manifest.{Entries, values, latest, list_versions, import_entry}
use cerclbackup.Backup.{Tools}
use cerclbackup.Restore.{with_version}

-- The entry that is exported; version 0 is the latest.
unfoldable pub exported_entry : Text → ℕ → Entries → Option ManifestEntry
exported_entry path version m =
    if ltb 0 version
    then with_version version (list_versions path (values m))
    else latest path (values m)

-- The loop over so many indices: nil, which is the empty slice here, where the store has no shard.
unfoldable pub exported_shards : Tools → Tree → Text → ℕ → ℕ → List Bytes
exported_shards tools t id zero index = []
exported_shards tools t id (suc n) index =
    let rest = exported_shards tools t id n (index + 1) in
    elim (store_get tools.root tools.marshal tools.unmarshal t id (pos index)) [
      | err x ↦ [] ∷ rest
      | ok blob ↦ blob ∷ rest
    ]

-- Export up to archive.Write: what is packed.
unfoldable pub export : Tools → Tree → Entries → Text → ℕ → Option (ManifestEntry × List Bytes)
unfolding exported_entry exported_shards
export tools t m path version = elim (exported_entry path version m) [
  | none ↦ none
  | some entry ↦ some (entry, exported_shards tools t entry.file_id (total_shards entry.scheme) 0)
]

-- The loop of Import over the shards of the archive.
unfoldable pub import_shards :
    Tools → ManifestEntry → List Bytes → ℕ → Tree → Result StorageError (Unit {0}) × Tree
import_shards tools entry [] index t = (ok tt, t)
import_shards tools entry (shard ∷ shards) index t =
    if length shard == 0
    then import_shards tools entry shards (index + 1) t
    else let (stored, t1) =
        store_put tools.root tools.marshal tools.unmarshal t entry.file_id (pos index)
          (leb entry.scheme.data_shards index) shard in
      let (rest, t2) = import_shards tools entry shards (index + 1) t1 in
      elim stored [ err x ↦ (err x, t1) | ok u ↦ (rest, t2) ]

pub data ImportError : Type 0 where
  not_stored : StorageError → ImportError
  not_saved : DiskError → ImportError

-- The form of the manifest's file.
module _ (tools : Tools) (marshal : Entries → Option Bytes) (unmarshal : Bytes → Option Entries)
    (seal unseal : Bytes → Option Bytes) where
  -- Import behind archive.Read: the outcome, the store, the manifest and its file.
  unfoldable pub import :
      ManifestEntry
      → List Bytes
      → Bool
      → Tree
      → Entries
      → File
      → Result ImportError (Unit {0}) × Tree × Entries × File
  unfolding import_shards
  import entry shards writable t m f =
      let (stored, t1) = import_shards tools entry shards 0 t in
      elim stored [
        | err x ↦ (err (not_stored x), t1, m, f)
        | ok u ↦ elim (lookup entry.file_id m) [
          | some known ↦ (ok tt, t1, m, f)
          | none ↦
              let m1 = import_entry entry m in
              let (saved, f1) = Persist.save marshal unmarshal seal unseal writable m1 f in
              elim saved [ err x ↦ (err (not_saved x), t1, m1, f1) | ok v ↦ (ok tt, t1, m1, f1) ]
        ]
      ]
