-- ===== src/Manifest.antt =====
-- internal/manifest/manifest.go: the index of all backed-up versions, and what is kept of them.
pub mod Sort
pub mod Versions
pub mod Retention
pub mod Groups
pub mod Prune
pub mod Persist
pub mod Examples
use mathlib.Core.Option
use cerclbackup.Prelude.{
  ℕ, ◌+◌, ◌-◌, ◌*◌, ◌%◌, ◌^◌, Bool, true, false, ◌&&◌, ◌||◌, Option, none, some, List, [], ◌∷◌,
  ◌++◌, ltb, leb, if◌then◌else◌, ◌==◌, nat_eq, list_eq, Text, length, drop, lookup, insert, erase,
  Result, ok, err,
}
use cerclbackup.Protocol.{RsScheme, ShardLocation, ManifestEntry}
use mathlib.Core.List.{reverse}

abbrev pub Entries : Type 0
Entries = List (Text × ManifestEntry)

-- The values of the map, in the order of an iteration over it.
unfoldable pub values : Entries → List ManifestEntry
values [] = []
values ((k, e) ∷ m) = e ∷ values m

-- versionOf: an entry from before versions counts as version 1.
unfoldable pub version_of : ManifestEntry → ℕ
version_of e = if e.version == 0 then 1 else e.version

-- The scan of Upsert for the next version number.
unfoldable pub next_version : Text → ℕ → List ManifestEntry → ℕ
next_version path next [] = next
next_version path next (e ∷ es) =
    let v : ℕ = if e.version == 0 then 1 else e.version in
    let next' : ℕ = if (e.path == path) && leb next v then v + 1 else next in
    next_version path next' es

pub data ManifestError : Type 0 where
  stat_failed read_failed decrypt_failed parse_failed : ManifestError
  marshal_failed encrypt_failed write_failed : ManifestError

-- What Upsert is told: `stat` is the modification time that os.Stat finds, if it finds the file,
-- `id` the new UUID, `now` the time, `hex` the printed content hash.
pub record Upload : Type 0 where
  pub src_path : Text
  pub stat : Option ℕ
  pub id : Text
  pub now : ℕ
  pub hex : Text
  pub size : ℕ
  pub scheme : RsScheme
  pub shards : List ShardLocation

unfoldable pub new_entry : Upload → ℕ → ℕ → ManifestEntry
new_entry u modified version = record {
  file_id = u.id;
  path = u.src_path;
  hash = u.hex;
  size = u.size;
  modified = modified;
  scheme = u.scheme;
  shards = u.shards;
  version = version;
  backed_at = u.now;
  compressed = false;
}

-- Upsert
unfoldable pub upsert : Upload → Entries → Result ManifestError (ManifestEntry × Entries)
unfolding new_entry
upsert u m = elim u.stat [
  | none ↦ err stat_failed
  | some modified ↦
      let entry = new_entry u modified (next_version u.src_path 1 (values m)) in
      ok (entry, insert u.id entry m)
]

-- The loop of Latest over the values, with the best entry so far.
unfoldable pub better : Option ManifestEntry → ManifestEntry → Bool
better none e = true
better (some best) e = ltb (version_of best) (version_of e)

unfoldable pub latest_loop : Text → Option ManifestEntry → List ManifestEntry → Option ManifestEntry
unfolding better
latest_loop path best [] = best
latest_loop path best (e ∷ es) =
    latest_loop path (if (e.path == path) && better best e then some e else best) es

-- Latest
unfoldable pub latest : Text → List ManifestEntry → Option ManifestEntry
unfolding latest_loop
latest path es = latest_loop path none es

-- One pass of the inner loop of sortByVersion: `e` moves left past the entries of a higher
-- version. The sorted front is held with its last entry first.
unfoldable pub sink : ManifestEntry → List ManifestEntry → List ManifestEntry
sink e [] = e ∷ []
sink e (p ∷ ps) =
    let moved = p ∷ sink e ps in if ltb (version_of e) (version_of p) then moved else e ∷ p ∷ ps

unfoldable pub sort_loop : List ManifestEntry → List ManifestEntry → List ManifestEntry
unfolding sink
sort_loop front [] = reverse front
sort_loop front (e ∷ es) = sort_loop (sink e front) es

-- sortByVersion
unfoldable pub sort_by_version : List ManifestEntry → List ManifestEntry
unfolding sort_loop
sort_by_version es = sort_loop [] es

unfoldable pub of_path : Text → List ManifestEntry → List ManifestEntry
of_path path [] = []
of_path path (e ∷ es) = let rest = of_path path es in if e.path == path then e ∷ rest else rest

-- ListVersions
unfoldable pub list_versions : Text → List ManifestEntry → List ManifestEntry
unfolding of_path sort_by_version
list_versions path es = sort_by_version (of_path path es)

-- FindByPath
unfoldable pub find_by_path : Text → List ManifestEntry → Option ManifestEntry
find_by_path path [] = none
find_by_path path (e ∷ es) = if e.path == path then some e else find_by_path path es

-- ImportEntry
unfoldable pub import_entry : ManifestEntry → Entries → Entries
import_entry e m = elim (lookup e.file_id m) [ none ↦ insert e.file_id e m | some old ↦ m ]

-- Remove
unfoldable pub remove : Text → Entries → Entries
remove id m = erase id m

-- LastModified, from the latest time so far.
unfoldable pub last_modified : ℕ → List ManifestEntry → ℕ
last_modified t [] = t
last_modified t (e ∷ es) = last_modified (if ltb t e.modified then e.modified else t) es

-- RetentionPolicy
pub record RetentionPolicy : Type 0 where
  pub keep_all_days : ℕ
  pub keep_weekly_days : ℕ
  pub max_versions : ℕ

abbrev pub default_retention_policy : RetentionPolicy
default_retention_policy = record { keep_all_days = 30; keep_weekly_days = 90; max_versions = 50 }

-- 24 hours in nanoseconds
abbrev pub day : ℕ
day = 24 * 60 * 60 * 1_000_000_000

-- Whether now.Sub(t) ≤ time.Duration(days)*24*time.Hour: the product is an int64, which wraps and is
-- negative from 2^63 on.
unfoldable pub within : ℕ → ℕ → ℕ → Bool
within now t days =
    let product : ℕ = (days * day) % 2 ^ 64 in
    if ltb product (2 ^ 63) then leb now (t + product) else leb (now + (2 ^ 64 - product)) t

unfoldable pub elem : Text → List Text → Bool
elem x [] = false
elem x (y ∷ ys) = (y == x) || elem x ys

-- BackedAt, or Modified where BackedAt is the zero time.
unfoldable pub stamp : ManifestEntry → ℕ
stamp e = if e.backed_at == 0 then e.modified else e.backed_at

-- byPath
unfoldable pub group_by_path :
    List (Text × List ManifestEntry) → List ManifestEntry → List (Text × List ManifestEntry)
group_by_path groups [] = groups
group_by_path groups (e ∷ es) =
    group_by_path (insert e.path (Option.get_or (lookup e.path groups) [] ++ (e ∷ [])) groups) es

unfoldable pub ids : List ManifestEntry → List Text
ids [] = []
ids (e ∷ es) = e.file_id ∷ ids es

-- The inner loop of PruneVersions: what is not in the keep set is deleted.
unfoldable pub drop_versions :
    List Text → List ManifestEntry → Entries × List Text → Entries × List Text
drop_versions keep_set [] s = s
drop_versions keep_set (e ∷ es) (m, pruned) = drop_versions keep_set es (
    if elem e.file_id keep_set
    then (m, pruned)
    else (erase e.file_id m, pruned ++ (e.file_id ∷ [])))

-- `week_key` and `month_key` print the ISO week and the calendar month of a time.
module _ (week_key month_key : ℕ → Text) (policy : RetentionPolicy) (now : ℕ) where
  -- The switch in the loop of selectVersionsToKeep: whether the entry is kept, and the keys that
  -- are seen from then on.
  unfoldable pub judge : List Text → ManifestEntry → Bool × List Text
  unfolding stamp within
  judge seen e =
      if within now (stamp e) policy.keep_all_days
      then (true, e.file_id ∷ seen)
      else let key : Text =
          if within now (stamp e) policy.keep_weekly_days
          then week_key (stamp e)
          else month_key (stamp e) in
        if elem key seen then (false, seen) else (true, e.file_id ∷ key ∷ seen)

  -- The loop, from the second newest version down; `keep` is in the order of the appends.
  unfoldable pub select_loop :
      List Text → List ManifestEntry → List ManifestEntry → List ManifestEntry
  select_loop seen keep [] = keep
  select_loop seen keep (e ∷ older) =
      let (kept, seen') = judge seen e in
      select_loop seen' (if kept then keep ++ (e ∷ []) else keep) older

  unfoldable pub cap_versions : List ManifestEntry → List ManifestEntry
  cap_versions keep =
      if ltb 0 policy.max_versions && ltb policy.max_versions (length keep)
      then drop (length keep - policy.max_versions) keep
      else keep

  -- The newest first.
  unfoldable pub select_from : List ManifestEntry → List ManifestEntry
  select_from [] = []
  select_from (newest ∷ older) =
      cap_versions (sort_by_version (select_loop (newest.file_id ∷ []) (newest ∷ []) older))

  -- selectVersionsToKeep, of the versions of one path in ascending order.
  unfoldable pub select_versions_to_keep : List ManifestEntry → List ManifestEntry
  select_versions_to_keep versions = select_from (reverse versions)

  unfoldable pub prune_groups :
      List (Text × List ManifestEntry) → Entries × List Text → Entries × List Text
  prune_groups [] s = s
  prune_groups ((path, unsorted) ∷ groups) s =
      let versions = sort_by_version unsorted in
      prune_groups groups (drop_versions (ids (select_versions_to_keep versions)) versions s)

  -- PruneVersions: the manifest that is left, and the FileIDs that were pruned.
  unfoldable pub prune_versions : Entries → Entries × List Text
  prune_versions m = prune_groups (group_by_path [] (values m)) (m, [])
