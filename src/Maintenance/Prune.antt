-- ===== src/Maintenance/Prune.antt =====
-- What Prune leaves in the store.
use cerclbackup.Manifest.Persist
use cerclbackup.Prelude.{
  ℕ, ◌+◌, ◌≤◌, ◌≡◌, refl, sym, ap, ◌∙◌, ◌≢◌, ◌⊎◌, inl, inr, Bool, true, false, Option, List, [],
  ◌∷◌, arith, Bool-cases, ◌==◌, beq_iff, nat_eq, list_eq, Bytes, Text, length, In, lookup, Result,
  ok, Result-cases,
}
use cerclbackup.Disk.{File}
use cerclbackup.Files.{FilePath, join, is_below, Tree, erase_below, remove_all}
use cerclbackup.Files.Decimal.{ℤ}
use cerclbackup.Files.Paths.{IsPlain, join_plain, join_nil}
use cerclbackup.Files.Access.{fault_below-none, remove_all_sound}
use cerclbackup.BuddyStore.{shard_name}
use cerclbackup.BuddyStore.Integrity.{head_or, read_file_same}
use cerclbackup.Storage.{StorageError, from_disk, store_get, store_delete}
use cerclbackup.Storage.Shards.{own_shard_at, own_shard_path_lem}
use cerclbackup.Manifest.{Entries, RetentionPolicy, prune_versions}
use cerclbackup.Backup.{Tools, file_id_from_hash}
use cerclbackup.Maintenance.{PruneResult, delete_sets, prune}
use cerclbackup.Maintenance.Audit.{length-file_id_from_hash}

-- What lies at or below a path is at least as deep.
is_below-deep : (p q : FilePath) → is_below p q ≡ true → length p ≤ length q
unfolding is_below
is_below-deep p [] h = omega (arith, ap length ((beq_iff p []).0 h))
is_below-deep p (c ∷ q) h = elim (Bool-cases (p == (c ∷ q))) [
  | inl same ↦ omega (arith, ap length ((beq_iff p (c ∷ q)).0 same))
  | inr other ↦ omega (arith, is_below-deep p q (ground (arith, h, other)))
]

-- No file of a directory beside another lies in that other.
is_below-beside :
    (root : FilePath) (id id' name : Text)
    → id ≢ id'
    → is_below (id ∷ root) (name ∷ id' ∷ root) ≡ false
unfolding is_below
is_below-beside root id id' name differ =
    let first : ((id ∷ root) == (name ∷ id' ∷ root)) ≡ false =
      elim (Bool-cases ((id ∷ root) == (name ∷ id' ∷ root))) [
        | inr q ↦ q
        | inl q ↦ absurd (omega (arith, ap length ((beq_iff (id ∷ root) (name ∷ id' ∷ root)).0 q)))
      ] in
    let second : ((id ∷ root) == (id' ∷ root)) ≡ false =
      elim (Bool-cases ((id ∷ root) == (id' ∷ root))) [
        | inr q ↦ q
        | inl q ↦
            absurd
              (differ (ap (λ (r : FilePath). head_or r) ((beq_iff (id ∷ root) (id' ∷ root)).0 q)))
      ] in
    let third : is_below (id ∷ root) root ≡ false = elim (Bool-cases (is_below (id ∷ root) root)) [
      | inr q ↦ q
      | inl q ↦ absurd (omega (arith, is_below-deep (id ∷ root) root q))
    ] in
    ground (arith, first, second, third)

module _ (tools : Tools) where
  abbrev delete : Tree → Text → Result StorageError Tree
  delete = store_delete tools.root tools.marshal tools.unmarshal

  -- Over a disk without faults, Delete of one name succeeds and leaves the shards of every other.
  delete_other :
      (t : Tree) (id id' : Text) (index : ℤ)
      → IsPlain id
      → IsPlain id'
      → id ≢ id'
      → ((p : FilePath) → t.fault p ≡ false)
      → (t1 : Tree) × (delete t id ≡ ok t1)
        × (t1.fault ≡ t.fault)
        × (store_get tools.root tools.marshal tools.unmarshal t1 id' index
            ≡ store_get tools.root tools.marshal tools.unmarshal t id' index)
  unfolding store_delete from_disk store_get
  delete_other t id id' index plain plain' differ sound =
      let t1 : Tree = record t { files = erase_below (id ∷ tools.root) t.files } in
      let path : join tools.root (id ∷ []) ≡ id ∷ tools.root =
        rw (join_plain tools.root id [] plain, join_nil) in
      let removed : remove_all t (id ∷ tools.root) ≡ ok t1 =
        unfold remove_all in
        rw (sound (id ∷ tools.root), fault_below-none t.fault (id ∷ tools.root) t.files sound) in
      let (kept, fault) = remove_all_sound t t1 (id ∷ tools.root) removed in
      let at : FilePath = own_shard_at tools.root tools.marshal tools.unmarshal id' index in
      let beside = is_below-beside tools.root id id' (shard_name index) differ in
      let same : lookup at t1.files ≡ lookup at t.files = kept at ∙ rw beside in
      let q = own_shard_path_lem tools.root tools.marshal tools.unmarshal id' index plain' in
      (t1, rw (path, removed), fault, rw (q, read_file_same t t1 at same fault))

  delete_sets_other :
      (t : Tree) (names : List Text) (n : ℕ) (id' : Text) (index : ℤ)
      → ((id : Text) → In id names → IsPlain id × (id ≢ id'))
      → IsPlain id'
      → ((p : FilePath) → t.fault p ≡ false)
      → ((delete_sets tools t names n).1 ≡ n + length names)
        × (store_get tools.root tools.marshal tools.unmarshal
              (delete_sets tools t names n).0
              id'
              index
            ≡ store_get tools.root tools.marshal tools.unmarshal t id' index)
  unfolding delete_sets
  delete_sets_other t [] n id' index names_plain plain' sound = (omega arith, refl)
  delete_sets_other t (id ∷ names) n id' index names_plain plain' sound =
      let (plain, differ) = names_plain id (inl refl) in
      let (t1, e, fault, got) = delete_other t id id' index plain plain' differ sound in
      let (count, rest) =
        delete_sets_other t1 names (n + 1) id' index (λ i k. names_plain i (inr k)) plain'
          (λ p. ap (λ (f : FilePath → Bool). f p) fault ∙ sound p) in
      rw (delete_sets, e) (omega (arith, count), rest ∙ got)

-- A Prune that succeeds and is no dry run had nothing to prune, or ran the loop.
prune_inv :
    (tools : Tools) (week_key month_key : ℕ → Text) (marshal : Entries → Option Bytes)
    (unmarshal : Bytes → Option Entries) (seal unseal : Bytes → Option Bytes)
    (policy : RetentionPolicy) (now : ℕ) (made writable : Bool) (m : Entries) (t t1 : Tree)
    (f f1 : File) (r : PruneResult)
    → prune tools week_key month_key marshal unmarshal seal unseal policy now false made writable m
        t f
      ≡ (ok r, t1, f1)
    → ((r ≡ record { pruned_ids = (prune_versions week_key month_key policy now m).1; deleted = 0 })
        × (t1 ≡ t)
        × (length (prune_versions week_key month_key policy now m).1 ≡ 0))
      ⊎ ((r ≡ record {
        pruned_ids = (prune_versions week_key month_key policy now m).1;
        deleted = (delete_sets tools t (prune_versions week_key month_key policy now m).1 0).1;
      })
          × (t1 ≡ (delete_sets tools t (prune_versions week_key month_key policy now m).1 0).0))
unfolding prune
prune_inv tools week_key month_key marshal unmarshal seal unseal policy now made writable m t t1 f
      f1 r e =
    let left : Entries = (prune_versions week_key month_key policy now m).0 in
    let pruned : List Text = (prune_versions week_key month_key policy now m).1 in
    elim (Bool-cases (length pruned == 0)) [
      | inl z ↦ inl (ground (arith, e, z), ground (arith, e, z), (beq_iff (length pruned) 0).0 z)
      | inr z ↦ elim (Bool-cases made) [
        | inr d ↦ absurd (ground (arith, e, z, d))
        | inl d ↦
            elim (Result-cases (Persist.save marshal unmarshal seal unseal writable left f).0) [
              | inr (x, s) ↦ absurd (ground (arith, e, z, d, s))
              | inl (u, s) ↦ inr (ground (arith, e, z, d, s), ground (arith, e, z, d, s))
            ]
      ]
    ]

-- Over a disk without faults, where the identifiers that a policy prunes are plain names of 36
-- characters, as UUIDs are, and a backup's file id made of a hash of 32 bytes: a Prune that is no dry
-- run and succeeds says that it deleted as many shard sets as it pruned versions, and the store
-- gives for the file id of every backup the same shards as before.
pub prune_keeps_shards :
    (tools : Tools) (week_key month_key : ℕ → Text) (marshal : Entries → Option Bytes)
    (unmarshal : Bytes → Option Entries) (seal unseal : Bytes → Option Bytes)
    (policy : RetentionPolicy) (now : ℕ) (made writable : Bool) (m : Entries) (t t1 : Tree)
    (f f1 : File) (r : PruneResult) (h : Bytes) (index : ℤ)
    → ((p : FilePath) → t.fault p ≡ false)
    → ((id : Text)
        → In id (prune_versions week_key month_key policy now m).1
        → IsPlain id × (length id ≡ 36))
    → length h ≡ 32
    → IsPlain (file_id_from_hash h)
    → prune tools week_key month_key marshal unmarshal seal unseal policy now false made writable m
        t f
      ≡ (ok r, t1, f1)
    → (r.deleted ≡ length r.pruned_ids)
      × (store_get tools.root tools.marshal tools.unmarshal t1 (file_id_from_hash h) index
          ≡ store_get tools.root tools.marshal tools.unmarshal t (file_id_from_hash h) index)
unfolding prune
prune_keeps_shards tools week_key month_key marshal unmarshal seal unseal policy now made writable m
      t t1 f f1 r h index sound uuids l plain e =
    let pruned : List Text = (prune_versions week_key month_key policy now m).1 in
    let (count, kept) =
      delete_sets_other tools t pruned 0 (file_id_from_hash h) index
        (λ id i.
          let (p, k) = uuids id i in
          (p, λ q. absurd (omega (arith, k, length-file_id_from_hash h l, ap length q))))
        plain sound in
    elim (prune_inv tools week_key month_key marshal unmarshal seal unseal policy now made writable
      m t t1 f f1 r e) [
        | inl (result, tree, empty) ↦ (
          ap (λ (x : PruneResult). x.deleted) result
              ∙ sym empty
              ∙ sym (ap (λ (x : PruneResult). length x.pruned_ids) result),
          ap
              (λ (x : Tree).
                store_get tools.root tools.marshal tools.unmarshal x (file_id_from_hash h) index)
              tree,
        )
        | inr (result, tree) ↦ (
          omega (
            arith,
            count,
            ap (λ (x : PruneResult). x.deleted) result,
            ap (λ (x : PruneResult). length x.pruned_ids) result,
          ),
          ap
                (λ (x : Tree).
                  store_get tools.root tools.marshal tools.unmarshal x (file_id_from_hash h) index)
                tree
              ∙ kept,
        )
      ]
