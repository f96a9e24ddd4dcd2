-- ===== src/Maintenance/Storage.antt =====
-- How the counters of the storage statistics stand to each other.
use mathlib.Core.Option
use cerclbackup.Prelude.{
  ℕ, ◌+◌, ◌≤◌, ◌<◌, ◌≡◌, refl, inl, inr, List, [], ◌∷◌, arith, ltb, ltb→lt, Bool-cases,
  Option-cases, ◌==◌, nat_eq, list_eq, Text, length, lookup, insert,
}
use cerclbackup.Protocol.{ManifestEntry}
use cerclbackup.Files.{FilePath, Tree}
use cerclbackup.Manifest.{Entries, values, latest}
use cerclbackup.Maintenance.{count_versions, multi_versions, logical_size, storage}

abbrev sum_counts : List (Text × ℕ) → ℕ
sum_counts [] = 0
sum_counts ((p, n) ∷ counts) = n + sum_counts counts

abbrev Positive : List (Text × ℕ) → Type 0
Positive [] = Unit
Positive ((p, n) ∷ counts) = (0 < n) × Positive counts

count_one :
    (p : Text) (counts : List (Text × ℕ))
    → sum_counts (insert p (Option.get_or (lookup p counts) 0 + 1) counts) ≡ sum_counts counts + 1
unfolding insert lookup
count_one p [] = omega arith
count_one p ((q, n) ∷ counts) = ground (arith, count_one p counts)

insert-Positive :
    (p : Text) (n : ℕ) (counts : List (Text × ℕ))
    → 0 < n
    → Positive counts
    → Positive (insert p n counts)
unfolding insert
insert-Positive p n [] h k = (h, tt)
insert-Positive p n ((q, i) ∷ counts) h (j, k) = elim (Bool-cases (q == p)) [
  | inl e ↦ rw (insert, e) (h, k)
  | inr e ↦ rw (insert, e) (j, insert-Positive p n counts h k)
]

count_versions_lem :
    (counts : List (Text × ℕ)) (es : List ManifestEntry)
    → Positive counts
    → (sum_counts (count_versions counts es) ≡ sum_counts counts + length es)
      × Positive (count_versions counts es)
unfolding count_versions
count_versions_lem counts [] h = (omega arith, h)
count_versions_lem counts (e ∷ es) h =
    let n : ℕ = Option.get_or (lookup e.path counts) 0 + 1 in
    let next : List (Text × ℕ) = insert e.path n counts in
    let (total, positive) =
      count_versions_lem next es (insert-Positive e.path n counts (omega arith) h) in
    (omega (arith, total, count_one e.path counts), positive)

multi_versions_lem :
    (counts : List (Text × ℕ))
    → Positive counts
    → (length counts + multi_versions counts ≤ sum_counts counts)
      × (multi_versions counts ≤ length counts)
unfolding multi_versions
multi_versions_lem [] h = (omega arith, omega arith)
multi_versions_lem ((p, n) ∷ counts) (i, h) =
    let (below, fewer) = multi_versions_lem counts h in
    elim (Bool-cases (ltb 1 n)) [
      | inl e ↦
          let two : 1 < n = ltb→lt 1 n e in
          rw (multi_versions, e) (omega (arith, below, two), omega (arith, fewer))
      | inr e ↦ rw (multi_versions, e) (omega (arith, below, i), omega (arith, fewer))
    ]

abbrev pub size_of_all : List ManifestEntry → ℕ
size_of_all [] = 0
size_of_all (e ∷ es) = e.size + size_of_all es

logical_size-bound : (all es : List ManifestEntry) → logical_size all es ≤ size_of_all es
unfolding logical_size
logical_size-bound all [] = omega arith
logical_size-bound all (e ∷ es) = elim (Option-cases (latest e.path all)) [
  | inl q ↦ rw (logical_size, q) (omega (arith, logical_size-bound all es))
  | inr (newest, q) ↦ elim (Bool-cases (newest.file_id == e.file_id)) [
    | inl s ↦ rw (logical_size, q, s) (omega (arith, logical_size-bound all es))
    | inr s ↦ rw (logical_size, q, s) (omega (arith, logical_size-bound all es))
  ]
]

-- The statistics count every version; a path is counted once more for having several, and then has
-- at least two of the versions, so the paths and the paths with several versions are together at
-- most the versions. The logical size is at most that of all versions.
pub storage_counts :
    (root : FilePath) (t : Tree) (m : Entries)
    → ((storage root t m).total_versions ≡ length (values m))
      × ((storage root t m).unique_paths + (storage root t m).multi_version
          ≤ (storage root t m).total_versions)
      × ((storage root t m).multi_version ≤ (storage root t m).unique_paths)
      × ((storage root t m).logical_bytes ≤ size_of_all (values m))
unfolding storage
storage_counts root t m =
    let (total, positive) = count_versions_lem [] (values m) tt in
    let (below, fewer) = multi_versions_lem (count_versions [] (values m)) positive in
    (refl, omega (arith, total, below), fewer, logical_size-bound (values m) (values m))
