-- ===== src/Manifest/Examples.antt =====
-- A manifest of three versions of one file, through its operations.
use cerclbackup.Prelude.{
  ℕ, ◌+◌, ◌*◌, ◌≡◌, refl, sym, ap, ◌∙◌, ◌≢◌, ◌⊎◌, inl, inr, true, false, Option, none, some, [],
  ◌∷◌, arith, if◌then◌else◌, ◌==◌, nat_eq, list_beq, list_eq, Bytes, Text, text, In, lookup, insert,
  erase, ok,
}
use cerclbackup.Protocol.{RsScheme, ManifestEntry}
use cerclbackup.Manifest.{
  Entries, values, version_of, next_version, Upload, upsert, latest, sink, sort_loop,
  sort_by_version, of_path, RetentionPolicy, day, within, elem, stamp, group_by_path, ids,
  drop_versions, judge, select_loop, cap_versions, select_from, select_versions_to_keep,
  prune_groups, prune_versions,
}
use cerclbackup.Manifest.Versions.{IsNextVersion, IsNewest, latest_sound, upsert-latest}
use cerclbackup.Manifest.Retention.{max_days, IsTop}
use cerclbackup.Manifest.Prune.{IsKeyed, kept, prune_versions_exact, prune_versions_safe}
use cerclbackup.Manifest.Persist.{IsFaithful}

abbrev scheme : RsScheme
scheme = record { data_shards = 2; parity_shards = 1 }

abbrev entry : Text → ℕ → ℕ → ManifestEntry
entry id version backed_at = record {
  file_id = id;
  path = text "a";
  hash = [];
  size = 5;
  modified = 1;
  scheme = scheme;
  shards = [];
  version = version;
  backed_at = backed_at;
  compressed = true;
}

abbrev one : ManifestEntry
one = entry (text "x") 0 1

abbrev two : ManifestEntry
two = entry (text "y") 2 (200 * day)

abbrev three : ManifestEntry
three = entry (text "z") 3 (201 * day)

abbrev stored : Entries
stored = (text "y", two) ∷ (text "x", one) ∷ []

abbrev upload : Upload
upload = record {
  src_path = text "a";
  stat = some 1;
  id = text "z";
  now = 201 * day;
  hex = [];
  size = 5;
  scheme = scheme;
  shards = [];
}

-- No week and no month is told from another one.
abbrev key : ℕ → Text
key t = text "w"

abbrev capped : RetentionPolicy
capped = record { keep_all_days = 30; keep_weekly_days = 90; max_versions = 1 }

abbrev days_201 : ℕ
days_201 = 201 * day

latest_sound_example :
    ((latest (text "a") (two ∷ one ∷ []) ≡ none)
      × ((e : ManifestEntry) → In e (two ∷ one ∷ []) → e.path ≢ text "a"))
    ⊎ ((best : ManifestEntry) × (latest (text "a") (two ∷ one ∷ []) ≡ some best)
        × IsNewest (text "a") (two ∷ one ∷ []) best)
latest_sound_example = latest_sound (text "a") (two ∷ one ∷ [])

three_is_next :
    upsert upload stored
    ≡ ok (
      record three { compressed = false },
      insert (text "z") (record three { compressed = false }) stored,
    )
unfolding upsert next_version values insert list_beq
three_is_next = refl

upsert-latest_example :
    (latest (text "a") (values (insert (text "z") (record three { compressed = false }) stored))
      ≡ some (record three { compressed = false }))
    × IsNextVersion (text "a") (values stored) (version_of (record three { compressed = false }))
    × ((id : Text)
        → lookup id (insert (text "z") (record three { compressed = false }) stored) ≡ (
            if text "z" == id
            then some (record three { compressed = false })
            else lookup id stored))
upsert-latest_example =
    upsert-latest upload stored (insert (text "z") (record three { compressed = false }) stored)
      (record three { compressed = false })
      (values (insert (text "z") (record three { compressed = false }) stored))
      (unfold lookup list_beq in refl) three_is_next (λ e. ((λ h. h), (λ h. h)))

stored-IsKeyed : IsKeyed stored
unfolding lookup list_beq
stored-IsKeyed = (
  (refl, (refl, tt)),
  λ k e h. elim h [
    | inl q ↦
        ap (λ (x : Text × ManifestEntry). x.1.file_id) q
        ∙ sym (ap (λ (x : Text × ManifestEntry). x.0) q)
    | inr (inl q) ↦
        ap (λ (x : Text × ManifestEntry). x.1.file_id) q
        ∙ sym (ap (λ (x : Text × ManifestEntry). x.0) q)
    | inr (inr q) ↦ absurd q
  ],
)

prune_versions_exact_example :
    ((e : ManifestEntry)
      → In e (values stored)
      → ((lookup e.file_id (prune_versions key key capped days_201 stored).0 ≡ some e)
          × In e (kept key key capped days_201 (of_path e.path (values stored))))
        ⊎ ((lookup e.file_id (prune_versions key key capped days_201 stored).0 ≡ none)
            × (In e (kept key key capped days_201 (of_path e.path (values stored))) → ⊥)))
    × ((id : Text)
        → lookup id stored ≡ none
        → lookup id (prune_versions key key capped days_201 stored).0 ≡ none)
prune_versions_exact_example = prune_versions_exact key key capped days_201 stored stored-IsKeyed

-- One day above the bound the product is negative, and a version of the same instant is not kept.
wraps : (within 0 0 max_days ≡ true) × (within 0 0 (max_days + 1) ≡ false)
unfolding within
wraps = (refl, refl)

-- The older of the two versions does not survive the cap.
one_is_pruned : (prune_versions key key capped days_201 stored).1 ≡ text "x" ∷ []
unfolding prune_versions prune_groups group_by_path values sort_by_version sort_loop sink
    select_versions_to_keep select_from select_loop judge within stamp cap_versions drop_versions
    elem ids version_of lookup insert erase list_beq
one_is_pruned = refl

two-IsTop : IsTop two (of_path (text "a") (values stored))
unfolding of_path values version_of list_beq
two-IsTop x h = elim h [
  | inl q ↦ inl q
  | inr (inl q) ↦ inr (rw q (omega arith))
  | inr (inr q) ↦ absurd q
]

prune_versions_safe_example :
    lookup (text "y") (prune_versions key key capped days_201 stored).0 ≡ some two
prune_versions_safe_example =
    prune_versions_safe key key capped days_201 stored two stored-IsKeyed
      (unfold values in inl refl) (inl two-IsTop)

abbrev marshal : Entries → Option Bytes
marshal m = some (1 ∷ [])

abbrev unmarshal : Bytes → Option Entries
unmarshal b = some stored

abbrev seal : Bytes → Option Bytes
seal b = some (7 ∷ b)

abbrev unseal : Bytes → Option Bytes
unseal [] = none
unseal (x ∷ b) = some b

faithful : IsFaithful marshal unmarshal seal unseal stored
faithful = record { parses = λ p h. refl; opens = λ p c h. ground (arith, h) }
