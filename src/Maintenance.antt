-- ===== src/Maintenance.antt =====
-- internal/api/maintenance.go: what Audit, Prune, Storage and Diff do once the keystore, the manifest
-- and the store are open.
pub mod Audit
pub mod Prune
pub mod Storage
pub mod Diff
pub mod Examples
use mathlib.Core.Option
use cerclbackup.Manifest.Persist
use cerclbackup.Prelude.{
  ℕ, zero, suc, ◌+◌, Bool, true, false, not, ◌&&◌, ◌||◌, Option, none, some, List, [], ◌∷◌, ltb,
  if◌then◌else◌, ◌==◌, nat_eq, list_eq, Bytes, Text, length, lookup, insert, Result, ok, err,
}
use cerclbackup.Disk.{File, DiskError}
use cerclbackup.Protocol.{total_shards, ManifestEntry}
use cerclbackup.Files.{FilePath, is_below, Tree}
use cerclbackup.Files.Decimal.{pos}
use cerclbackup.Crypto.{derive_file_key, decrypt_shard}
use cerclbackup.Storage.{store_get, store_delete}
use cerclbackup.Manifest.{Entries, values, latest, RetentionPolicy, stamp, ids, prune_versions}
use cerclbackup.Backup.{Tools}
use cerclbackup.Restore.{hex_to_hash}

pub record AuditResult : Type 0 where
  pub checked : ℕ
  pub valid : ℕ
  pub corrupted : ℕ
  pub orphaned : ℕ

-- `listed` stands for the directories that os.ReadDir finds in the store, or its failure.
module _ (tools : Tools) (master_key : Bytes) (t : Tree) where
  -- Whether a shard decrypts under the key of the entry's file.
  unfoldable pub decrypts : ManifestEntry → ℕ → Bytes → Bool
  decrypts entry index blob = elim (hex_to_hash entry.hash) [
    | none ↦ false
    | some hash ↦ elim (derive_file_key tools.crypto master_key hash) [
      | err x ↦ false
      | ok key ↦ elim (decrypt_shard tools.crypto key (pos index) blob) [
        | err x ↦ false
        | ok shard ↦ true
      ]
    ]
  ]

  -- What one shard that was read adds to the result.
  unfoldable pub audit_shard : Option ManifestEntry → ℕ → Bytes → AuditResult → AuditResult
  unfolding decrypts
  audit_shard none index blob r = record r { checked = r.checked + 1; orphaned = r.orphaned + 1 }
  audit_shard (some entry) index blob r =
      if decrypts entry index blob
      then record r { checked = r.checked + 1; valid = r.valid + 1 }
      else record r { checked = r.checked + 1; corrupted = r.corrupted + 1 }

  -- The inner loop, with so many indices left: it ends at the first shard that is missing.
  unfoldable pub audit_shards : Text → Option ManifestEntry → ℕ → ℕ → AuditResult → AuditResult
  unfolding audit_shard
  audit_shards id entry zero index r = r
  audit_shards id entry (suc n) index r =
      elim (store_get tools.root tools.marshal tools.unmarshal t id (pos index)) [
        | err x ↦ r
        | ok blob ↦ audit_shards id entry n (index + 1) (audit_shard entry index blob r)
      ]

  unfoldable pub max_shards : Option ManifestEntry → ℕ
  max_shards none = 8
  max_shards (some entry) = total_shards entry.scheme

  unfoldable pub audit_files : Entries → List Text → AuditResult → AuditResult
  unfolding audit_shards max_shards
  audit_files m [] r = r
  audit_files m (id ∷ ids) r =
      let entry = lookup id m in audit_files m ids (audit_shards id entry (max_shards entry) 0 r)

  -- Audit
  unfoldable pub audit : Entries → Option (List Text) → Option AuditResult
  unfolding audit_files
  audit m none = none
  audit m (some listed) =
      some (audit_files m listed (record { checked = 0; valid = 0; corrupted = 0; orphaned = 0 }))

pub record PruneResult : Type 0 where
  pub pruned_ids : List Text
  pub deleted : ℕ

pub data PruneError : Type 0 where
  store_not_made : PruneError
  not_saved : DiskError → PruneError

-- The loop of Prune over the identifiers: the disk and the counter from then on. A Delete that
-- fails is not counted.
unfoldable pub delete_sets : Tools → Tree → List Text → ℕ → Tree × ℕ
delete_sets tools t [] n = (t, n)
delete_sets tools t (id ∷ ids) n =
    elim (store_delete tools.root tools.marshal tools.unmarshal t id) [
      | err x ↦ delete_sets tools t ids n
      | ok t1 ↦ delete_sets tools t1 ids (n + 1)
    ]

-- The clock's calendar, and the form of the manifest's file.
module _ (tools : Tools) (week_key month_key : ℕ → Text) (marshal : Entries → Option Bytes)
    (unmarshal : Bytes → Option Entries) (seal unseal : Bytes → Option Bytes) where
  -- Prune: `made` tells whether the store's directory can be made, `writable` whether the manifest's
  -- file can be written. The outcome, the disk of the store and the manifest's file.
  unfoldable pub prune :
      RetentionPolicy
      → ℕ
      → Bool
      → Bool
      → Bool
      → Entries
      → Tree
      → File
      → Result PruneError PruneResult × Tree × File
  unfolding delete_sets
  prune policy now dry_run made writable m t f =
      let (left, pruned) = prune_versions week_key month_key policy now m in
      if (length pruned == 0) || dry_run
      then (ok (record { pruned_ids = pruned; deleted = 0 }), t, f)
      else if not made
      then (err store_not_made, t, f)
      else let (t1, deleted) = delete_sets tools t pruned 0 in
        let (saved, f1) = Persist.save marshal unmarshal seal unseal writable left f in
        elim saved [
          | err x ↦ (err (not_saved x), t1, f1)
          | ok u ↦ (ok (record { pruned_ids = pruned; deleted = deleted }), t1, f1)
        ]

pub record StorageStats : Type 0 where
  pub unique_paths : ℕ
  pub total_versions : ℕ
  pub multi_version : ℕ
  pub logical_bytes : ℕ
  pub disk_bytes : ℕ

-- byPath: how many versions each path has.
unfoldable pub count_versions : List (Text × ℕ) → List ManifestEntry → List (Text × ℕ)
count_versions counts [] = counts
count_versions counts (e ∷ es) =
    count_versions (insert e.path (Option.get_or (lookup e.path counts) 0 + 1) counts) es

unfoldable pub multi_versions : List (Text × ℕ) → ℕ
multi_versions [] = 0
multi_versions ((p, n) ∷ counts) =
    let rest = multi_versions counts in if ltb 1 n then rest + 1 else rest

-- The sizes of the entries that Latest gives for their paths.
unfoldable pub logical_size : List ManifestEntry → List ManifestEntry → ℕ
logical_size all [] = 0
logical_size all (e ∷ es) =
    let rest = logical_size all es in
    elim (latest e.path all) [
      | none ↦ rest
      | some newest ↦ if newest.file_id == e.file_id then e.size + rest else rest
    ]

-- The walk over the files below the store's directory.
unfoldable pub disk_size : FilePath → List (FilePath × Bytes) → ℕ
disk_size root [] = 0
disk_size root ((p, b) ∷ files) =
    let rest = disk_size root files in if is_below root p then length b + rest else rest

-- Storage
unfoldable pub storage : FilePath → Tree → Entries → StorageStats
unfolding count_versions multi_versions logical_size disk_size
storage root t m =
    let entries = values m in
    let counts = count_versions [] entries in
    record {
      unique_paths = length counts;
      total_versions = length entries;
      multi_version = multi_versions counts;
      logical_bytes = logical_size entries entries;
      disk_bytes = disk_size root t.files;
    }

pub data DiffKind : Type 0 where
  new updated : DiffKind

pub record DiffChange : Type 0 where
  pub path : Text
  pub version : ℕ
  pub backed_at : ℕ
  pub file_id : Text
  pub size : ℕ
  pub kind : DiffKind

-- latestBefore: the highest version of each path before the cutoff; 0 where there is none.
unfoldable pub latest_before : ℕ → List (Text × ℕ) → List ManifestEntry → List (Text × ℕ)
latest_before since known [] = known
latest_before since known (e ∷ es) =
    latest_before since
      (if ltb (stamp e) since && ltb (Option.get_or (lookup e.path known) 0) e.version
        then insert e.path e.version known
        else known)
      es

abbrev pub change_of : DiffKind → ManifestEntry → DiffChange
change_of kind e = record {
  path = e.path;
  version = e.version;
  backed_at = stamp e;
  file_id = e.file_id;
  size = e.size;
  kind = kind;
}

unfoldable pub changes_after : ℕ → List (Text × ℕ) → List ManifestEntry → List DiffChange
changes_after since known [] = []
changes_after since known (e ∷ es) =
    let rest = changes_after since known es in
    let kind = if Option.get_or (lookup e.path known) 0 == 0 then new else updated in
    if ltb since (stamp e) then change_of kind e ∷ rest else rest

-- Diff
unfoldable pub diff : ℕ → Entries → List DiffChange
unfolding latest_before changes_after
diff since m = changes_after since (latest_before since [] (values m)) (values m)
