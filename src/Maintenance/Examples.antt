-- ===== src/Maintenance/Examples.antt =====
-- A store with one shard of a backup, under a manifest of one path in two versions.
use cerclbackup.Manifest.Persist
use cerclbackup.Disk.{absent, holds, write_file as write_disk_file}
use cerclbackup.Prelude.{
  ℕ, ◌+◌, ◌≤◌, ◌≡◌, refl, ap, ◌∙◌, subst, inl, inr, true, false, Option, some, List, [], ◌∷◌, arith,
  nat_eq, list_beq, list_eq, Bytes, Text, text, length, drop, replicate, In, lookup, insert, erase,
  ok,
}
use cerclbackup.Protocol.{ManifestEntry}
use cerclbackup.Codec.SumCode.{scheme, sum_code}
use cerclbackup.Files.{
  split_slash, enter, enter_all, join, is_below, Tree, read_file, erase_below, fault_below,
  remove_all,
}
use cerclbackup.Files.Decimal.{pos, digits, itoa}
use cerclbackup.Files.Paths.{IsPlain}
use cerclbackup.Hex.{hex_digit, to_hex}
use cerclbackup.Storage.{from_disk, own_shard_path, store_get, store_delete}
use cerclbackup.BuddyStore.{shard_name}
use cerclbackup.Manifest.{
  Entries, values, version_of, sink, sort_loop, sort_by_version, RetentionPolicy, within, elem,
  stamp, group_by_path, ids, drop_versions, judge, select_loop, cap_versions, select_from,
  select_versions_to_keep, prune_groups, prune_versions,
}
use cerclbackup.Backup.{Tools, file_id_from_hash}
use cerclbackup.Restore.Recovery.{file_id-IsPlain}
use cerclbackup.Maintenance.{
  AuditResult, audit_shard, audit_shards, max_shards, audit_files, audit, PruneResult, delete_sets,
  prune, storage, diff,
}
use cerclbackup.Maintenance.Audit.{audit_counts, audit_of_backups}
use cerclbackup.Maintenance.Prune.{prune_keeps_shards}
use cerclbackup.Maintenance.Storage.{storage_counts}
use cerclbackup.Maintenance.Diff.{changes_wanted, diff_lem}

abbrev pub some_tools : Tools
some_tools = record {
  sha256 = λ b. replicate 32 7;
  zstd = record {
    encode_all = λ b. b;
    decode_all = λ b. some b;
    encoder_starts = true;
    decoder_starts = true;
  };
  crypto = record {
    expand = λ secret salt info. some (replicate 32 1);
    seal = λ key nonce plaintext. 9 ∷ plaintext;
    unseal = λ key nonce blob. some (drop 1 blob);
  };
  new_coder = λ s. some sum_code;
  root = text "store" ∷ [];
  marshal = λ meta. some [];
  unmarshal = λ blob. some [];
}

abbrev pub hash : Bytes
hash = replicate 32 7

abbrev pub stored : Tree
stored = record {
  files = (text "0.shard" ∷ text "0707070707070707" ∷ text "store" ∷ [], replicate 20 5) ∷ [];
  fault = λ p. false;
}

abbrev pub uuid_a : Text
uuid_a = replicate 36 b'a'

abbrev pub uuid_b : Text
uuid_b = replicate 36 b'b'

abbrev pub version_at : Text → ℕ → ManifestEntry
version_at id version = record {
  file_id = id;
  path = text "p";
  hash = to_hex hash;
  size = 3;
  modified = version;
  scheme = scheme;
  shards = [];
  version = version;
  backed_at = version;
  compressed = true;
}

abbrev pub two_versions : Entries
two_versions = (uuid_a, version_at uuid_a 1) ∷ (uuid_b, version_at uuid_b 2) ∷ []

abbrev one_orphan : AuditResult
one_orphan = record { checked = 1; valid = 0; corrupted = 0; orphaned = 1 }

abbrev listed : List Text
listed = text "0707070707070707" ∷ []

stored_name : text "0707070707070707" ≡ file_id_from_hash hash
unfolding file_id_from_hash to_hex hex_digit
stored_name = refl

audited : audit some_tools [] stored two_versions (some listed) ≡ some one_orphan
unfolding audit audit_files audit_shards audit_shard max_shards store_get from_disk own_shard_path
    join enter_all enter split_slash shard_name itoa digits read_file lookup list_beq
audited = refl

audit_counts_example :
    one_orphan.checked ≡ one_orphan.valid + one_orphan.corrupted + one_orphan.orphaned
audit_counts_example =
    audit_counts some_tools [] stored two_versions (some listed) one_orphan audited

two_keys : (key : Text) (e : ManifestEntry) → In (key, e) two_versions → length key ≡ 36
two_keys key e (inl q) = ap (λ (x : Text × ManifestEntry). length x.0) q
two_keys key e (inr (inl q)) = ap (λ (x : Text × ManifestEntry). length x.0) q
two_keys key e (inr (inr q)) = absurd q

listed_names :
    (id : Text) → In id listed → (h : Bytes) × (length h ≡ 32) × (id ≡ file_id_from_hash h)
listed_names id (inl q) = (hash, refl, q ∙ stored_name)
listed_names id (inr q) = absurd q

audit_of_backups_example :
    (one_orphan.valid ≡ 0) × (one_orphan.corrupted ≡ 0) × (one_orphan.orphaned ≡ one_orphan.checked)
audit_of_backups_example =
    audit_of_backups some_tools [] stored two_versions listed one_orphan two_keys listed_names
      audited

storage_counts_example :
    ((storage some_tools.root stored two_versions).total_versions ≡ 2)
    × ((storage some_tools.root stored two_versions).unique_paths
          + (storage some_tools.root stored two_versions).multi_version
        ≤ (storage some_tools.root stored two_versions).total_versions)
    × ((storage some_tools.root stored two_versions).multi_version
        ≤ (storage some_tools.root stored two_versions).unique_paths)
    × ((storage some_tools.root stored two_versions).logical_bytes ≤ 6)
unfolding values
storage_counts_example = storage_counts some_tools.root stored two_versions

diff_lem_example :
    diff 1 two_versions ≡ changes_wanted 1 (values two_versions) (values two_versions)
diff_lem_example = diff_lem 1 two_versions

-- A policy that keeps only the newest version, whatever its age.
abbrev newest_only : RetentionPolicy
newest_only = record { keep_all_days = 0; keep_weekly_days = 0; max_versions = 1 }

abbrev no_key : ℕ → Text
no_key n = []

abbrev pub as_length : Entries → Option Bytes
as_length m = some (length m ∷ [])

abbrev pub no_entries : Bytes → Option Entries
no_entries b = some []

abbrev first_pruned : PruneResult
first_pruned = record { pruned_ids = uuid_a ∷ []; deleted = 1 }

abbrev left_tree : Tree
left_tree = record { files = stored.files; fault = λ p. false }

only_first : (prune_versions no_key no_key newest_only 2 two_versions).1 ≡ uuid_a ∷ []
unfolding prune_versions prune_groups group_by_path values sort_by_version sort_loop sink
    select_versions_to_keep select_from select_loop judge within stamp cap_versions drop_versions
    elem ids version_of lookup insert erase list_beq
only_first = refl

pruned_first :
    prune some_tools no_key no_key as_length no_entries some some newest_only 2 false true true
      two_versions stored absent
    ≡ (ok first_pruned, left_tree, holds (1 ∷ []))
unfolding prune delete_sets store_delete from_disk remove_all fault_below erase_below is_below join
    enter_all enter split_slash Persist.save Persist.encrypted_bytes write_disk_file prune_versions
    prune_groups group_by_path values sort_by_version sort_loop sink select_versions_to_keep
    select_from select_loop judge within stamp cap_versions drop_versions elem ids version_of lookup
    insert erase list_beq
pruned_first = refl

pub uuid_a-IsPlain : IsPlain uuid_a
uuid_a-IsPlain = record {
  no_slash = omega arith;
  not_empty = λ e. absurd (omega (arith, ap length e));
  not_dot = λ e. absurd (omega (arith, ap length e));
  not_dots = λ e. absurd (omega (arith, ap length e));
}

only_first_plain :
    (id : Text)
    → In id (prune_versions no_key no_key newest_only 2 two_versions).1
    → IsPlain id × (length id ≡ 36)
only_first_plain id i =
    let here : In id (uuid_a ∷ []) = subst (In id) only_first i in
    elim here [ inl q ↦ rw q (uuid_a-IsPlain, refl) | inr q ↦ absurd q ]

prune_keeps_shards_example :
    (first_pruned.deleted ≡ length first_pruned.pruned_ids)
    × (store_get some_tools.root some_tools.marshal some_tools.unmarshal left_tree
          (file_id_from_hash hash)
          (pos 0)
        ≡ store_get some_tools.root some_tools.marshal some_tools.unmarshal stored
            (file_id_from_hash hash)
            (pos 0))
prune_keeps_shards_example =
    prune_keeps_shards some_tools no_key no_key as_length no_entries some some newest_only 2 true
      true two_versions stored left_tree absent (holds (1 ∷ [])) first_pruned hash (pos 0)
      (λ p. refl) only_first_plain refl (file_id-IsPlain hash refl (ground arith)) pruned_first
