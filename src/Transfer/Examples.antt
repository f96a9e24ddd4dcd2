-- ===== src/Transfer/Examples.antt =====
-- The first of two versions is exported; an archive with one shard of it is imported.
use cerclbackup.Disk.{absent, holds, write_file as write_disk_file}
use cerclbackup.Manifest.Persist
use cerclbackup.Prelude.{
  ◌≡◌, refl, true, some, List, [], ◌∷◌, arith, nat_eq, list_beq, list_eq, Bytes, text, replicate,
  lookup, insert, ok,
}
use cerclbackup.Files.{
  split_slash, enter, enter_all, join, is_below, Tree, read_file, above_is_file, has_below,
  write_file,
}
use cerclbackup.Files.Decimal.{pos, digits, itoa}
use cerclbackup.Protocol.{total_shards, ManifestEntry}
use cerclbackup.BuddyStore.{shard_name}
use cerclbackup.Storage.{
  from_disk, update_meta, put_meta, own_shard_path, meta_path, read_meta, write_meta, known_meta,
  store_put, store_get,
}
use cerclbackup.Manifest.{
  values, version_of, sink, sort_loop, sort_by_version, of_path, list_versions, import_entry,
}
use cerclbackup.Backup.{file_id_from_hash}
use cerclbackup.Restore.{with_version}
use cerclbackup.Restore.Recovery.{file_id-IsPlain}
use cerclbackup.Maintenance.Examples.{
  some_tools, hash, stored, uuid_a, version_at, two_versions, as_length, no_entries, uuid_a-IsPlain,
}
use cerclbackup.Rebalance.Examples.{stored_names}
use cerclbackup.Transfer.{exported_entry, exported_shards, export, import_shards, import}
use cerclbackup.Transfer.Shards.{export_is_empty, import_is_unseen}

abbrev one_entry : ManifestEntry
one_entry = version_at uuid_a 1

exported : export some_tools stored two_versions (text "p") 1 ≡ some (one_entry, [] ∷ [] ∷ [] ∷ [])
unfolding export exported_entry exported_shards with_version list_versions of_path sort_by_version
    sort_loop sink version_of values total_shards store_get from_disk read_file own_shard_path join
    enter_all enter split_slash shard_name itoa digits lookup list_beq
exported = refl

abbrev nothing_packed : List Bytes
nothing_packed = [] ∷ [] ∷ [] ∷ []

export_is_empty_example : nothing_packed ≡ replicate (total_shards one_entry.scheme) []
export_is_empty_example =
    export_is_empty some_tools stored two_versions (text "p") 1 one_entry ([] ∷ [] ∷ [] ∷ [])
      stored_names uuid_a-IsPlain refl exported

abbrev imported : Tree
imported = (import_shards some_tools one_entry ((6 ∷ []) ∷ []) 0 stored).1

imports :
    import some_tools as_length no_entries some some one_entry ((6 ∷ []) ∷ []) true stored [] absent
    ≡ (ok tt, imported, (uuid_a, one_entry) ∷ [], holds (1 ∷ []))
unfolding import import_shards import_entry Persist.save Persist.encrypted_bytes write_disk_file
    store_put own_shard_path known_meta read_meta write_meta put_meta from_disk meta_path
    update_meta join enter_all enter split_slash shard_name itoa digits write_file above_is_file
    has_below is_below read_file insert lookup list_beq
imports = refl

import_is_unseen_example :
    store_get some_tools.root some_tools.marshal some_tools.unmarshal imported
      (file_id_from_hash hash)
      (pos 0)
    ≡ store_get some_tools.root some_tools.marshal some_tools.unmarshal stored
        (file_id_from_hash hash)
        (pos 0)
import_is_unseen_example =
    import_is_unseen some_tools as_length no_entries some some one_entry ((6 ∷ []) ∷ []) true stored
      imported [] ((uuid_a, one_entry) ∷ []) absent (holds (1 ∷ [])) hash (pos 0) uuid_a-IsPlain
      refl (file_id-IsPlain hash refl (ground arith)) refl imports
