-- ===== src/BuddyStore/Examples.antt =====
-- Two buddies, a shard each, and an owner that is deleted.
use cerclbackup.Prelude.{
  ◌≡◌, refl, true, false, none, [], ◌∷◌, arith, if◌then◌else◌, nat_eq, list_beq, list_eq, Bytes,
  Text, text, take, lookup, insert, ok, err,
}
use cerclbackup.Files.{
  FilePath, split_slash, enter, enter_all, join, is_below, Tree, above_is_file, has_below,
  write_file, erase_below, fault_below, remove_all,
}
use cerclbackup.Files.Decimal.{pos, digits, itoa}
use cerclbackup.BuddyStore.{
  unsafe_owner, contains_any_slash, is_safe_path_component, remote, shard_name, on_disk, shard_path,
  with_hash, hash_path, put, get, delete_owner, put_with_hash, verify,
}
use cerclbackup.BuddyStore.Confined.{delete_owner_exact}
use cerclbackup.BuddyStore.Integrity.{verify-put_with_hash}

abbrev root : FilePath
root = text "data" ∷ []

abbrev ann : Text
ann = text "ann"

abbrev bob : Text
bob = text "bob"

abbrev report : Text
report = text "report"

abbrev digest : Bytes → Bytes
digest b = take 1 b

abbrev empty_tree : Tree
empty_tree = record { files = []; fault = λ p. false }

abbrev shard : Bytes
shard = 7 ∷ 8 ∷ []

abbrev bob_dir : FilePath
bob_dir = bob ∷ remote ∷ root

abbrev after_put : Tree
after_put = record {
  files =
      ((text "0.shard" ∷ report ∷ bob_dir), shard)
      ∷ ((text "0.shard.hash" ∷ report ∷ bob_dir), 7 ∷ [])
      ∷ [];
  fault = λ p. false;
}

path_of_shard : shard_path root bob report (pos 0) ≡ ok (text "0.shard" ∷ report ∷ bob_dir)
unfolding shard_path is_safe_path_component contains_any_slash shard_name itoa digits join enter_all
    enter split_slash list_beq
path_of_shard = refl

put_once : put_with_hash root digest empty_tree bob report (pos 0) shard ≡ (ok tt, after_put)
unfolding put_with_hash put on_disk hash_path with_hash shard_path is_safe_path_component
    contains_any_slash shard_name itoa digits join enter_all enter split_slash write_file
    above_is_file has_below is_below insert lookup list_beq
put_once = refl

no_way_up :
    put_with_hash root digest empty_tree (text "..") report (pos 0) shard
    ≡ (err unsafe_owner, empty_tree)
unfolding put_with_hash put shard_path is_safe_path_component contains_any_slash list_beq
no_way_up = refl

delete_bob : delete_owner root after_put bob ≡ ok empty_tree
unfolding delete_owner on_disk is_safe_path_component contains_any_slash join enter_all enter
    split_slash remove_all fault_below erase_below is_below list_beq
delete_bob = refl

ann_outside : is_below bob_dir (text "0.shard" ∷ report ∷ ann ∷ remote ∷ root) ≡ false
unfolding is_below list_beq
ann_outside = refl

delete_owner_exact_example : lookup (text "0.shard" ∷ report ∷ bob_dir) empty_tree.files ≡ (
    if is_below bob_dir (text "0.shard" ∷ report ∷ bob_dir)
    then none
    else lookup (text "0.shard" ∷ report ∷ bob_dir) after_put.files)
delete_owner_exact_example =
    delete_owner_exact root after_put empty_tree bob (text "0.shard" ∷ report ∷ bob_dir) delete_bob

verify-put_with_hash_example :
    (get root after_put bob report (pos 0) ≡ ok shard)
    × (verify root digest after_put bob report (pos 0) ≡ true)
verify-put_with_hash_example =
    verify-put_with_hash root digest empty_tree after_put bob report (pos 0) shard put_once

bob_is_not_ann : ¬ ((bob ≡ ann) × (report ≡ report) × (pos 0 ≡ pos 0))
bob_is_not_ann (e, _, _) = absurd (ground (arith, e))
