-- ===== src/Scrub/Examples.antt =====
-- A store with a healthy shard and a corrupted one, which the owner can send again.
use cerclbackup.Prelude.{
  ◌≡◌, refl, true, false, Option, some, [], ◌∷◌, nat_eq, list_beq, list_eq, Bytes, text, take,
  lookup, insert, ok,
}
use cerclbackup.Files.{
  FilePath, split_slash, enter, enter_all, join, is_below, Tree, above_is_file, has_below,
  write_file,
}
use cerclbackup.Files.Decimal.{pos, digits, itoa}
use cerclbackup.BuddyStore.{
  contains_any_slash, is_safe_path_component, shard_name, on_disk, shard_path, with_hash, hash_path,
  put, get, put_with_hash, verify,
}
use cerclbackup.Scrub.{ShardRef, revive}
use cerclbackup.Scrub.Pass.{revive_sound}

abbrev root : FilePath
root = text "data" ∷ []

abbrev digest : Bytes → Bytes
digest b = take 1 b

abbrev bad : ShardRef
bad = record { owner = text "bob"; file = text "f"; index = pos 0 }

abbrev good : ShardRef
good = record { owner = text "bob"; file = text "f"; index = pos 1 }

abbrev owner_sends : ShardRef → Option Bytes
owner_sends ref = some (7 ∷ 8 ∷ [])

abbrev dir : FilePath
dir = text "f" ∷ text "bob" ∷ text "remote" ∷ root

abbrev tree : Tree
tree = record {
  files =
      ((text "0.shard" ∷ dir), 1 ∷ [])
      ∷ ((text "0.shard.hash" ∷ dir), 7 ∷ [])
      ∷ ((text "1.shard" ∷ dir), 5 ∷ 6 ∷ [])
      ∷ ((text "1.shard.hash" ∷ dir), 5 ∷ [])
      ∷ [];
  fault = λ p. false;
}

abbrev repaired : Tree
repaired = record {
  files =
      ((text "0.shard" ∷ dir), 7 ∷ 8 ∷ [])
      ∷ ((text "0.shard.hash" ∷ dir), 7 ∷ [])
      ∷ ((text "1.shard" ∷ dir), 5 ∷ 6 ∷ [])
      ∷ ((text "1.shard.hash" ∷ dir), 5 ∷ [])
      ∷ [];
  fault = λ p. false;
}

revived_bad : revive root digest owner_sends bad tree ≡ (true, repaired)
unfolding revive put_with_hash put on_disk hash_path with_hash shard_path is_safe_path_component
    contains_any_slash shard_name itoa digits join enter_all enter split_slash write_file
    above_is_file has_below is_below insert lookup list_beq
revived_bad = refl

revive_sound_example :
    (sent : Bytes) × (owner_sends bad ≡ some sent)
    × (get root repaired bad.owner bad.file bad.index ≡ ok sent)
    × (verify root digest repaired bad.owner bad.file bad.index ≡ true)
revive_sound_example = revive_sound root digest owner_sends bad tree repaired revived_bad
