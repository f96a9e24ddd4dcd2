-- ===== src/Rebalance/Skipped.antt =====
-- A rebalance with the manifest's identifiers.
use cerclbackup.Prelude.{
  ◌≡◌, refl, inl, inr, Bool, none, List, [], ◌∷◌, arith, Bool-cases, Option-cases, ◌==◌, nat_eq,
  list_eq, Bytes, Text, text, length, In, lookup, In-of_lookup, err,
}
use cerclbackup.Files.{FilePath, Tree, refused, no_file, read_file}
use cerclbackup.Files.Paths.{IsPlain}
use cerclbackup.Storage.{StorageError, disk_failed, from_disk, read_meta}
use cerclbackup.Storage.Shards.{meta_at, meta_path_lem}
use cerclbackup.Backup.{Tools}
use cerclbackup.Handlers.{ShardPush}
use cerclbackup.Registry.{Entry}
use cerclbackup.Sender.{Link, ShardForms}
use cerclbackup.Rebalance.{RebalanceResult, reachable, push_file, push_files, run}

module _ (tools : Tools) (j : ShardForms) (connects : Text → Bool) (link : Text → ShardPush → Link)
    (owner : Text) (t : Tree) where
  -- Without a file of metadata there is none to read.
  no_meta :
      (file : Text)
      → IsPlain file
      → lookup (meta_at tools.root tools.marshal tools.unmarshal file) t.files ≡ none
      → (x : StorageError) × (read_meta tools.root tools.marshal tools.unmarshal t file ≡ err x)
  unfolding read_meta from_disk read_file
  no_meta file plain l =
      let at : FilePath = meta_at tools.root tools.marshal tools.unmarshal file in
      let path = meta_path_lem tools.root tools.marshal tools.unmarshal file plain in
      elim (Bool-cases (t.fault at)) [
        | inl f ↦ (disk_failed refused, rw (read_meta, path, f) refl)
        | inr f ↦ (disk_failed no_file, rw (read_meta, path, f, l) refl)
      ]

  push_files_skips :
      (peers files : List Text) (r : RebalanceResult)
      → ((file : Text)
          → In file files
          → IsPlain file
            × (lookup (meta_at tools.root tools.marshal tools.unmarshal file) t.files ≡ none))
      → push_files tools j connects link owner t peers files r ≡ r
  unfolding push_files push_file
  push_files_skips peers [] r h = refl
  push_files_skips peers (f ∷ files) r h =
      let (plain, l) = h f (inl refl) in
      let (x, e) = no_meta f plain l in
      rw (push_files, push_file, e) (push_files_skips peers files r (λ g i. h g (inr i)))

  -- Where every file of the store lies in a directory with a name of 16 characters, as those of
  -- backups do: a run for identifiers that are plain names of 36 characters, as the manifest's FileIDs
  -- are, processes no file, attempts no push and reports no error.
  pub run_skips_uuids :
      (decodes : Text → Bool) (buddies : List Entry) (files : List Text)
      → ((file : Text) → In file files → IsPlain file × (length file ≡ 36))
      → ((name id : Text) (b : Bytes) → In ((name ∷ id ∷ tools.root), b) t.files → length id ≡ 16)
      → run tools j connects link owner t decodes buddies files
        ≡ record { files_processed = 0; shards_attempted = 0; shards_ok = 0; errors = [] }
  unfolding run
  run_skips_uuids decodes buddies files uuids names =
      let nothing : RebalanceResult = record {
        files_processed = 0;
        shards_attempted = 0;
        shards_ok = 0;
        errors = [];
      } in
      elim (Bool-cases (length buddies == 0)) [
        | inl alone ↦ rw alone refl
        | inr some_buddy ↦ rw some_buddy (
            push_files_skips (reachable decodes buddies) files nothing (λ file i.
              let (plain, long) = uuids file i in
              let at : FilePath = meta_at tools.root tools.marshal tools.unmarshal file in
              (
                plain,
                elim (Option-cases (lookup at t.files)) [
                  | inl q ↦ q
                  | inr (b, q) ↦ absurd (
                      omega (
                        arith,
                        long,
                        names (text "meta.json") file b (In-of_lookup at b t.files q),
                      ))
                ],
              )))
      ]
