-- ===== src/Storage/Examples.antt =====
-- Two shards of one file, put one after the other.
use cerclbackup.Prelude.{
  ◌≡◌, refl, ap, false, Option, none, some, List, [], ◌∷◌, arith, nat_eq, list_beq, list_eq, Bytes,
  text, length, lookup, insert, Result, ok,
}
use cerclbackup.Files.{
  FilePath, split_slash, enter, enter_all, join, is_below, Tree, read_file, above_is_file,
  has_below, write_file,
}
use cerclbackup.Files.Decimal.{pos, digits, itoa}
use cerclbackup.Files.Paths.{IsPlain}
use cerclbackup.BuddyStore.{shard_name}
use cerclbackup.Storage.{
  ShardMeta, StorageError, from_disk, same_index, update_meta, put_meta, own_shard_path, meta_path,
  read_meta, write_meta, known_meta, store_put, store_get,
}
use cerclbackup.Storage.Refinement.{PutCall, last_put, put_calls, store_refines_map}

abbrev no_meta : List ShardMeta → Option Bytes
no_meta ms = some (length ms ∷ [])

abbrev no_list : Bytes → Option (List ShardMeta)
no_list b = some []

abbrev store_root : FilePath
store_root = text "store" ∷ []

abbrev nothing_stored : Tree
nothing_stored = record { files = []; fault = λ p. false }

abbrev put_first : Result StorageError (Unit {0}) × Tree
put_first =
    store_put store_root no_meta no_list nothing_stored (text "ab") (pos 0) false (1 ∷ 2 ∷ [])

abbrev put_second : Result StorageError (Unit {0}) × Tree
put_second = store_put store_root no_meta no_list put_first.1 (text "ab") (pos 1) false (3 ∷ 4 ∷ [])

ab-IsPlain : IsPlain (text "ab")
ab-IsPlain = record {
  no_slash = omega arith;
  not_empty = λ e. absurd (omega (arith, ap length e));
  not_dot = λ e. absurd (omega (arith, ap length e));
  not_dots = λ e. absurd (ground (arith, e));
}

abbrev both_calls : List PutCall
both_calls =
    record { file = text "ab"; index = pos 0; parity = false; shard = 1 ∷ 2 ∷ [] }
    ∷ record { file = text "ab"; index = pos 1; parity = false; shard = 3 ∷ 4 ∷ [] }
    ∷ []

both_called : put_calls store_root no_meta no_list both_calls nothing_stored ≡ ok put_second.1
unfolding put_calls store_put own_shard_path known_meta read_meta write_meta put_meta from_disk
    meta_path update_meta same_index join enter_all enter split_slash shard_name itoa digits
    write_file above_is_file has_below is_below read_file insert lookup list_beq
both_called = refl

store_refines_map_example :
    store_get store_root no_meta no_list put_second.1 (text "ab") (pos 0)
    ≡ (elim (last_put (text "ab") (pos 0) both_calls) [
      | some shard ↦ ok shard
      | none ↦ store_get store_root no_meta no_list nothing_stored (text "ab") (pos 0)
    ])
store_refines_map_example =
    store_refines_map store_root no_meta no_list both_calls nothing_stored put_second.1 (text "ab")
      (pos 0) (ab-IsPlain, (ab-IsPlain, tt)) ab-IsPlain both_called
