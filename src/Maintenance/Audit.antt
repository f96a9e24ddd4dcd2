-- ===== src/Maintenance/Audit.antt =====
-- What the counters of an audit say.
use cerclbackup.Prelude.{
  ℕ, zero, suc, ◌+◌, ◌≡◌, refl, sym, ap, ◌∙◌, subst, inl, inr, Option, none, some, List, [], ◌∷◌,
  arith, Bool-cases, Option-cases, nat_eq, list_eq, Bytes, Text, length, take, length-take, In,
  lookup, In-of_lookup, Result-cases,
}
use cerclbackup.Protocol.{ManifestEntry}
use cerclbackup.Files.{Tree}
use cerclbackup.Files.Decimal.{pos}
use cerclbackup.Hex.{length-to_hex}
use cerclbackup.Storage.{store_get}
use cerclbackup.Manifest.{Entries}
use cerclbackup.Backup.{Tools, file_id_from_hash}
use cerclbackup.Maintenance.{
  AuditResult, decrypts, audit_shard, audit_shards, max_shards, audit_files, audit,
}

module _ (tools : Tools) (master_key : Bytes) (t : Tree) where
  -- Every shard that was checked is counted once more, as valid, as corrupted or as orphaned.
  abbrev IsPartition : AuditResult → Type 0
  IsPartition r = r.checked ≡ r.valid + r.corrupted + r.orphaned

  audit_shard-IsPartition :
      (entry : Option ManifestEntry) (index : ℕ) (blob : Bytes) (r : AuditResult)
      → IsPartition r
      → IsPartition (audit_shard tools master_key t entry index blob r)
  unfolding audit_shard
  audit_shard-IsPartition none index blob r h = omega (arith, h)
  audit_shard-IsPartition (some entry) index blob r h =
      elim (Bool-cases (decrypts tools master_key t entry index blob)) [
        | inl d ↦ rw d (omega (arith, h))
        | inr d ↦ rw d (omega (arith, h))
      ]

  audit_shards-IsPartition :
      (id : Text) (entry : Option ManifestEntry) (n index : ℕ) (r : AuditResult)
      → IsPartition r
      → IsPartition (audit_shards tools master_key t id entry n index r)
  unfolding audit_shards
  audit_shards-IsPartition id entry zero index r h = h
  audit_shards-IsPartition id entry (suc n) index r h =
      elim (Result-cases (store_get tools.root tools.marshal tools.unmarshal t id (pos index))) [
        | inr (x, e) ↦ rw (audit_shards, e) h
        | inl (blob, e) ↦
            rw (audit_shards, e)
              (audit_shards-IsPartition id entry n (index + 1)
                (audit_shard tools master_key t entry index blob r)
                (audit_shard-IsPartition entry index blob r h))
      ]

  audit_files-IsPartition :
      (m : Entries) (names : List Text) (r : AuditResult)
      → IsPartition r
      → IsPartition (audit_files tools master_key t m names r)
  unfolding audit_files
  audit_files-IsPartition m [] r h = h
  audit_files-IsPartition m (id ∷ names) r h =
      let entry = lookup id m in
      audit_files-IsPartition m names
        (audit_shards tools master_key t id entry (max_shards tools master_key t entry) 0 r)
        (audit_shards-IsPartition id entry (max_shards tools master_key t entry) 0 r h)

  -- What an audit that ends counts as checked is what it counts as valid, as corrupted and as
  -- orphaned together.
  pub audit_counts :
      (m : Entries) (listed : Option (List Text)) (r : AuditResult)
      → audit tools master_key t m listed ≡ some r
      → r.checked ≡ r.valid + r.corrupted + r.orphaned
  unfolding audit
  audit_counts m none r h = absurd (ground (arith, h))
  audit_counts m (some listed) r h =
      let start : AuditResult = record { checked = 0; valid = 0; corrupted = 0; orphaned = 0 } in
      let same : audit_files tools master_key t m listed start ≡ r = ground (arith, h) in
      subst IsPartition same (audit_files-IsPartition m listed start refl)

  -- Of a file that the manifest does not know, no shard is valid or corrupted.
  audit_shards_unknown :
      (id : Text) (n index : ℕ) (r : AuditResult)
      → ((audit_shards tools master_key t id none n index r).valid ≡ r.valid)
        × ((audit_shards tools master_key t id none n index r).corrupted ≡ r.corrupted)
  unfolding audit_shards audit_shard
  audit_shards_unknown id zero index r = (refl, refl)
  audit_shards_unknown id (suc n) index r =
      elim (Result-cases (store_get tools.root tools.marshal tools.unmarshal t id (pos index))) [
        | inr (x, e) ↦ rw (audit_shards, e) (refl, refl)
        | inl (blob, e) ↦
            rw (audit_shards, e)
              (audit_shards_unknown id n (index + 1)
                (record r { checked = r.checked + 1; orphaned = r.orphaned + 1 }))
      ]

  audit_files_unknown :
      (m : Entries) (names : List Text) (r : AuditResult)
      → ((id : Text) → In id names → lookup id m ≡ none)
      → ((audit_files tools master_key t m names r).valid ≡ r.valid)
        × ((audit_files tools master_key t m names r).corrupted ≡ r.corrupted)
  unfolding audit_files
  audit_files_unknown m [] r h = (refl, refl)
  audit_files_unknown m (id ∷ names) r h =
      let n : ℕ = max_shards tools master_key t none in
      let (v, c) = audit_shards_unknown id n 0 r in
      let next : AuditResult = audit_shards tools master_key t id none n 0 r in
      let (vs, cs) = audit_files_unknown m names next (λ i k. h i (inr k)) in
      rw (audit_files, h id (inl refl)) (vs ∙ v, cs ∙ c)

-- The file's name in the store has sixteen digits.
pub length-file_id_from_hash : (h : Bytes) → length h ≡ 32 → length (file_id_from_hash h) ≡ 16
unfolding file_id_from_hash
length-file_id_from_hash h l = length-to_hex (take 8 h) ∙ omega (arith, length-take 8 h)

pub lookup_by_length :
    (id : Text) (m : Entries)
    → ((key : Text) (e : ManifestEntry) → In (key, e) m → length key ≡ 36)
    → length id ≡ 16
    → lookup id m ≡ none
lookup_by_length id m keys l = elim (Option-cases (lookup id m)) [
  | inl q ↦ q
  | inr (e, q) ↦ absurd (omega (arith, keys id e (In-of_lookup id e m q), l))
]

-- Where every entry is filed under an identifier of 36 characters, as Upsert's UUIDs are, and every
-- directory of the store has the name that a backup gives it, the file id made of a hash of 32 bytes:
-- an audit that ends finds no shard valid and none corrupted, and counts every shard that it checks
-- as orphaned.
pub audit_of_backups :
    (tools : Tools) (master_key : Bytes) (t : Tree) (m : Entries) (listed : List Text)
    (r : AuditResult)
    → ((key : Text) (e : ManifestEntry) → In (key, e) m → length key ≡ 36)
    → ((id : Text) → In id listed → (h : Bytes) × (length h ≡ 32) × (id ≡ file_id_from_hash h))
    → audit tools master_key t m (some listed) ≡ some r
    → (r.valid ≡ 0) × (r.corrupted ≡ 0) × (r.orphaned ≡ r.checked)
unfolding audit
audit_of_backups tools master_key t m listed r keys names h =
    let start : AuditResult = record { checked = 0; valid = 0; corrupted = 0; orphaned = 0 } in
    let same : audit_files tools master_key t m listed start ≡ r = ground (arith, h) in
    let (v, c) = audit_files_unknown tools master_key t m listed start (λ id i.
      let (hash, l, q) = names id i in
      lookup_by_length id m keys (ap length q ∙ length-file_id_from_hash hash l)) in
    let parts = audit_counts tools master_key t m (some listed) r (unfold audit in h) in
    let v0 : r.valid ≡ 0 = ap (λ (x : AuditResult). x.valid) (sym same) ∙ v in
    let c0 : r.corrupted ≡ 0 = ap (λ (x : AuditResult). x.corrupted) (sym same) ∙ c in
    (v0, c0, omega (arith, parts, v0, c0))
