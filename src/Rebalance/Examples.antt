-- ===== src/Rebalance/Examples.antt =====
-- A run for the manifest's identifier of a file whose one shard lies under another name.
use cerclbackup.Prelude.{◌+◌, ◌≡◌, refl, ap, inl, inr, true, [], ◌∷◌, Bytes, Text, text, length, In}
use cerclbackup.Files.{FilePath}
use cerclbackup.Files.Paths.{IsPlain}
use cerclbackup.Sender.Examples.{forms}
use cerclbackup.BuddyPush.Examples.{dead_link, far_buddy}
use cerclbackup.Rebalance.{run}
use cerclbackup.Rebalance.Counts.{unread_count, run-IsBalanced}
use cerclbackup.Rebalance.Skipped.{run_skips_uuids}
use cerclbackup.Maintenance.Examples.{some_tools, stored, uuid_a, uuid_a-IsPlain}

run-IsBalanced_example :
    (run some_tools forms
        (λ p. true)
        (λ p m. dead_link)
        (text "me")
        stored
        (λ p. true)
        (far_buddy ∷ [])
        (uuid_a ∷ [])).shards_attempted
      + unread_count
          (run some_tools forms
            (λ p. true)
            (λ p m. dead_link)
            (text "me")
            stored
            (λ p. true)
            (far_buddy ∷ [])
            (uuid_a ∷ [])).errors
    ≡ (run some_tools forms
        (λ p. true)
        (λ p m. dead_link)
        (text "me")
        stored
        (λ p. true)
        (far_buddy ∷ [])
        (uuid_a ∷ [])).shards_ok
      + length
          (run some_tools forms
            (λ p. true)
            (λ p m. dead_link)
            (text "me")
            stored
            (λ p. true)
            (far_buddy ∷ [])
            (uuid_a ∷ [])).errors
run-IsBalanced_example =
    run-IsBalanced some_tools forms (λ p. true) (λ p m. dead_link) (text "me") stored (λ p. true)
      (far_buddy ∷ []) (uuid_a ∷ [])

only_uuid : (file : Text) → In file (uuid_a ∷ []) → IsPlain file × (length file ≡ 36)
only_uuid file (inl q) = rw q (uuid_a-IsPlain, refl)
only_uuid file (inr q) = absurd q

-- The directory of a file.
abbrev pub directory : FilePath → Text
directory [] = []
directory (c ∷ []) = []
directory (c ∷ d ∷ p) = d

pub stored_names :
    (name id : Text) (b : Bytes)
    → In ((name ∷ id ∷ some_tools.root), b) stored.files
    → length id ≡ 16
stored_names name id b (inl q) = ap (λ (x : FilePath × Bytes). length (directory x.0)) q
stored_names name id b (inr q) = absurd q

run_skips_uuids_example :
    run some_tools forms
      (λ p. true)
      (λ p m. dead_link)
      (text "me")
      stored
      (λ p. true)
      (far_buddy ∷ [])
      (uuid_a ∷ [])
    ≡ record { files_processed = 0; shards_attempted = 0; shards_ok = 0; errors = [] }
run_skips_uuids_example =
    run_skips_uuids some_tools forms (λ p. true) (λ p m. dead_link) (text "me") stored (λ p. true)
      (far_buddy ∷ []) (uuid_a ∷ []) only_uuid stored_names
