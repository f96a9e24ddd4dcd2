-- ===== src/BuddyStore.antt =====
-- internal/buddy/store.go: the shards and manifests that a node holds for its buddies.
pub mod Confined
pub mod Integrity
pub mod Blobs
pub mod Examples
use cerclbackup.Prelude.{
  Bool, true, false, not, ◌||◌, none, some, [], ◌∷◌, ◌++◌, if◌then◌else◌, ◌==◌, nat_eq, list_eq,
  Bytes, Text, text, lookup, Result, ok, err, ◌>>=◌, ◌>>◌,
}
use cerclbackup.Files.{
  FilePath, join, Tree, TreeError, read_file, has_below, write_file, remove_all, remove_file,
}
use cerclbackup.Files.Decimal.{ℤ, itoa}

pub data StoreError : Type 0 where
  unsafe_owner unsafe_file : StoreError
  disk : TreeError → StoreError

unfoldable pub contains_any_slash : Text → Bool
contains_any_slash [] = false
contains_any_slash (c ∷ s) = (c == b'/' || c == 0x5c) || contains_any_slash s

-- isSafePathComponent(s)
unfoldable pub is_safe_path_component : Text → Bool
unfolding contains_any_slash
is_safe_path_component s =
    if s == text "" || (s == text "." || s == text "..") then false else not (contains_any_slash s)

abbrev pub remote : Text
remote = text "remote"

-- strconv.Itoa(shardIndex) + ".shard"
unfoldable pub shard_name : ℤ → Text
shard_name index = itoa index ++ text ".shard"

-- What the disk says, as an error of the store.
unfoldable pub on_disk {ℓ} : {A : Type ℓ} → Result TreeError A → Result StoreError A
on_disk (ok a) = ok a
on_disk (err x) = err (disk x)

-- `root` is the directory of the store.
module _ (root : FilePath) where
  -- shardPath
  unfoldable pub shard_path : Text → Text → ℤ → Result StoreError FilePath
  shard_path owner file index =
      if not (is_safe_path_component owner)
      then err unsafe_owner
      else if not (is_safe_path_component file)
      then err unsafe_file
      else ok (join root (remote ∷ owner ∷ file ∷ shard_name index ∷ []))

  -- The path with ".hash" behind its last component.
  unfoldable pub with_hash : FilePath → FilePath
  with_hash [] = text ".hash" ∷ []
  with_hash (name ∷ dir) = (name ++ text ".hash") ∷ dir

  -- hashPath
  unfoldable pub hash_path : Text → Text → ℤ → Result StoreError FilePath
  unfolding with_hash
  hash_path owner file index = do p ← shard_path owner file index; ok (with_hash p)

  -- Put
  unfoldable pub put : Tree → Text → Text → ℤ → Bytes → Result StoreError Tree
  put t owner file index shard = do p ← shard_path owner file index; on_disk (write_file t p shard)

  -- Get
  unfoldable pub get : Tree → Text → Text → ℤ → Result StoreError Bytes
  get t owner file index = do p ← shard_path owner file index; on_disk (read_file t p)

  -- Has: whether os.Stat finds a file or a directory there, be it readable or not.
  unfoldable pub has : Tree → Text → Text → ℤ → Bool
  has t owner file index = elim (shard_path owner file index) [
    | err x ↦ false
    | ok p ↦ elim (lookup p t.files) [ some b ↦ true | none ↦ has_below p t.files ]
  ]

  -- Delete
  unfoldable pub delete : Tree → Text → Text → ℤ → Result StoreError Tree
  delete t owner file index = do p ← shard_path owner file index; on_disk (remove_file t p)

  -- DeleteOwner
  unfoldable pub delete_owner : Tree → Text → Result StoreError Tree
  delete_owner t owner =
      if not (is_safe_path_component owner)
      then err unsafe_owner
      else on_disk (remove_all t (join root (remote ∷ owner ∷ [])))

  unfoldable pub manifest_path : Text → FilePath
  manifest_path owner = join root (remote ∷ owner ∷ text "manifest.enc" ∷ [])

  -- PutManifest
  unfoldable pub put_manifest : Tree → Text → Bytes → Result StoreError Tree
  put_manifest t owner blob =
      if not (is_safe_path_component owner)
      then err unsafe_owner
      else on_disk (write_file t (manifest_path owner) blob)

  -- GetManifest
  unfoldable pub get_manifest : Tree → Text → Result StoreError Bytes
  get_manifest t owner =
      if not (is_safe_path_component owner)
      then err unsafe_owner
      else on_disk (read_file t (manifest_path owner))

  -- `sha256` is crypto/sha256.Sum256.
  module _ (sha256 : Bytes → Bytes) where
    -- PutWithHash: what is on disk from then on, and the outcome. A shard that is written stays
    -- when its hash cannot be.
    unfoldable pub put_with_hash :
        Tree → Text → Text → ℤ → Bytes → Result StoreError (Unit {0}) × Tree
    put_with_hash t owner file index shard = elim (put t owner file index shard) [
      | err x ↦ (err x, t)
      | ok t1 ↦ elim (hash_path owner file index) [
        | err x ↦ (err x, t1)
        | ok hp ↦ elim (write_file t1 hp (sha256 shard)) [
          | err x ↦ (err (disk x), t1)
          | ok t2 ↦ (ok tt, t2)
        ]
      ]
    ]

    -- Verify
    unfoldable pub verify : Tree → Text → Text → ℤ → Bool
    verify t owner file index = elim (get t owner file index) [
      | err x ↦ false
      | ok shard ↦ elim (hash_path owner file index) [
        | err x ↦ false
        | ok hp ↦ elim (read_file t hp) [ err x ↦ false | ok expected ↦ sha256 shard == expected ]
      ]
    ]
