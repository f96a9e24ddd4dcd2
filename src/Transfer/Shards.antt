-- ===== src/Transfer/Shards.antt =====
-- Which shards an export and an import are about.
use cerclbackup.Disk.{File}
use cerclbackup.Manifest.Persist
use cerclbackup.Prelude.{
  ℕ, zero, suc, ◌+◌, ◌≡◌, refl, sym, ap, ◌∙◌, subst, ◌≢◌, inl, inr, Bool, false, Option, none, some,
  List, [], ◌∷◌, arith, leb, Bool-cases, Option-cases, ◌==◌, beq_iff, nat_eq, list_eq, Bytes, Text,
  length, replicate, In, lookup, In-of_lookup, Result, ok, err, Result-cases,
}
use cerclbackup.Files.{FilePath, Tree, refused, no_file, read_file}
use cerclbackup.Files.Decimal.{ℤ, pos}
use cerclbackup.Files.Paths.{IsPlain}
use cerclbackup.Protocol.{total_shards, ManifestEntry}
use cerclbackup.BuddyStore.{shard_name}
use cerclbackup.Storage.{StorageError, disk_failed, from_disk, store_put, store_get}
use cerclbackup.Storage.Shards.{own_shard_at, own_shard_path_lem, store_get-store_put}
use cerclbackup.Manifest.{Entries, import_entry}
use cerclbackup.Backup.{Tools, file_id_from_hash}
use cerclbackup.Maintenance.Audit.{length-file_id_from_hash}
use cerclbackup.Transfer.{exported_entry, exported_shards, export, import_shards, import}
use mathlib.Core.Path.{ap₂}

module _ (tools : Tools) where
  absent_shard :
      (t : Tree) (id : Text) (index : ℤ)
      → IsPlain id
      → lookup (own_shard_at tools.root tools.marshal tools.unmarshal id index) t.files ≡ none
      → (x : StorageError) × (store_get tools.root tools.marshal tools.unmarshal t id index ≡ err x)
  unfolding store_get from_disk read_file
  absent_shard t id index plain l =
      let at : FilePath = own_shard_at tools.root tools.marshal tools.unmarshal id index in
      let path = own_shard_path_lem tools.root tools.marshal tools.unmarshal id index plain in
      elim (Bool-cases (t.fault at)) [
        | inl f ↦ (disk_failed refused, rw (store_get, path, f) refl)
        | inr f ↦ (disk_failed no_file, rw (store_get, path, f, l) refl)
      ]

  exported_shards_empty :
      (t : Tree) (id : Text) (n index : ℕ)
      → IsPlain id
      → ((i : ℤ)
          → lookup (own_shard_at tools.root tools.marshal tools.unmarshal id i) t.files ≡ none)
      → exported_shards tools t id n index ≡ replicate n []
  unfolding exported_shards
  exported_shards_empty t id zero index plain l = refl
  exported_shards_empty t id (suc n) index plain l =
      let (x, e) = absent_shard t id (pos index) plain (l (pos index)) in
      rw (exported_shards, e)
        (ap (λ (xs : List Bytes). [] ∷ xs) (exported_shards_empty t id n (index + 1) plain l))

  -- Where every file of the store lies in a directory with a name of 16 characters, as those of
  -- backups do, and the entry's FileID is a plain name of 36 characters: an export of the entry packs
  -- only empty shards.
  pub export_is_empty :
      (t : Tree) (m : Entries) (path : Text) (version : ℕ) (entry : ManifestEntry)
      (shards : List Bytes)
      → ((name id : Text) (b : Bytes) → In ((name ∷ id ∷ tools.root), b) t.files → length id ≡ 16)
      → IsPlain entry.file_id
      → length entry.file_id ≡ 36
      → export tools t m path version ≡ some (entry, shards)
      → shards ≡ replicate (total_shards entry.scheme) []
  unfolding export
  export_is_empty t m path version entry shards names plain long h =
      elim (Option-cases (exported_entry path version m)) [
        | inl e ↦ absurd (ground (arith, h, e))
        | inr (found, e) ↦
            let same : found ≡ entry = ground (arith, h, e) in
            let packed : exported_shards tools t found.file_id (total_shards found.scheme) 0
                ≡ shards =
              ground (arith, h, e) in
            let here : exported_shards tools t entry.file_id (total_shards entry.scheme) 0
                ≡ shards =
              subst
                (λ (x : ManifestEntry).
                  exported_shards tools t x.file_id (total_shards x.scheme) 0 ≡ shards)
                same packed in
            sym here
            ∙ exported_shards_empty t entry.file_id (total_shards entry.scheme) 0 plain (λ i.
              let at : FilePath =
                own_shard_at tools.root tools.marshal tools.unmarshal entry.file_id i in
              elim (Option-cases (lookup at t.files)) [
                | inl q ↦ q
                | inr (b, q) ↦ absurd (
                    omega (
                      arith,
                      long,
                      names (shard_name i) entry.file_id b (In-of_lookup at b t.files q),
                    ))
              ])
      ]

  -- An import touches the shards of no other name.
  import_shards_other :
      (entry : ManifestEntry) (shards : List Bytes) (index : ℕ) (t t' : Tree) (id : Text) (i : ℤ)
      → IsPlain entry.file_id
      → IsPlain id
      → entry.file_id ≢ id
      → import_shards tools entry shards index t ≡ (ok tt, t')
      → store_get tools.root tools.marshal tools.unmarshal t' id i
        ≡ store_get tools.root tools.marshal tools.unmarshal t id i
  unfolding import_shards
  import_shards_other entry [] index t t' id i plain plain' differ h =
      ap (λ (x : Tree). store_get tools.root tools.marshal tools.unmarshal x id i)
        (ground (arith, h))
  import_shards_other entry (shard ∷ shards) index t t' id i plain plain' differ h =
      let put : Result StorageError (Unit {0}) × Tree =
        store_put tools.root tools.marshal tools.unmarshal t entry.file_id (pos index)
          (leb entry.scheme.data_shards index) shard in
      elim (Bool-cases (length shard == 0)) [
        | inl z ↦
            import_shards_other entry shards (index + 1) t t' id i plain plain' differ
              (rw (import_shards, z) at h)
        | inr z ↦ elim (Result-cases put.0) [
          | inr (x, e) ↦ absurd (ground (arith, h, z, e))
          | inl (u, e) ↦
              let stored : put ≡ (ok tt, put.1) =
                ap (λ (a : Result StorageError (Unit {0})). (a, put.1)) e in
              let rest : import_shards tools entry shards (index + 1) put.1 ≡ (ok tt, t') =
                ground (arith, h, z, e) in
              let beside : (entry.file_id == id) ≡ false = elim (Bool-cases (entry.file_id == id)) [
                | inr q ↦ q
                | inl q ↦ absurd (differ ((beq_iff entry.file_id id).0 q))
              ] in
              import_shards_other entry shards (index + 1) put.1 t' id i plain plain' differ rest
              ∙ rw beside at (
                  store_get-store_put tools.root tools.marshal tools.unmarshal t put.1 entry.file_id
                    id (pos index) i (leb entry.scheme.data_shards index) shard plain plain' stored)
        ]
      ]

  import_inv :
      (marshal : Entries → Option Bytes) (unmarshal : Bytes → Option Entries)
      (seal unseal : Bytes → Option Bytes) (entry : ManifestEntry) (shards : List Bytes)
      (writable : Bool) (t t' : Tree) (m m' : Entries) (f f' : File)
      → import tools marshal unmarshal seal unseal entry shards writable t m f ≡ (ok tt, t', m', f')
      → import_shards tools entry shards 0 t ≡ (ok tt, t')
  unfolding import
  import_inv marshal unmarshal seal unseal entry shards writable t t' m m' f f' h =
      let stored : Result StorageError (Unit {0}) × Tree = import_shards tools entry shards 0 t in
      elim (Result-cases stored.0) [
        | inr (x, e) ↦ absurd (ground (arith, h, e))
        | inl (u, e) ↦
            let same : stored.1 ≡ t' = elim (Option-cases (lookup entry.file_id m)) [
              | inr (known, k) ↦ ground (arith, h, e, k)
              | inl k ↦
                  elim (Result-cases
                    (Persist.save marshal unmarshal seal unseal writable (import_entry entry m)
                      f).0) [
                        | inl (v, s) ↦ ground (arith, h, e, k, s)
                        | inr (y, s) ↦ absurd (ground (arith, h, e, k, s))
                      ]
            ] in
            ap₂ (λ (a : Result StorageError (Unit {0})) (b : Tree). (a, b)) e same
      ]

  -- After an Import that succeeds of an entry whose FileID is a plain name of 36 characters: the store
  -- gives for every name that a restore looks for, the file id made of a hash of 32 bytes, what it
  -- gave before.
  pub import_is_unseen :
      (marshal : Entries → Option Bytes) (unmarshal : Bytes → Option Entries)
      (seal unseal : Bytes → Option Bytes) (entry : ManifestEntry) (shards : List Bytes)
      (writable : Bool) (t t' : Tree) (m m' : Entries) (f f' : File) (h : Bytes) (index : ℤ)
      → IsPlain entry.file_id
      → length entry.file_id ≡ 36
      → IsPlain (file_id_from_hash h)
      → length h ≡ 32
      → import tools marshal unmarshal seal unseal entry shards writable t m f ≡ (ok tt, t', m', f')
      → store_get tools.root tools.marshal tools.unmarshal t' (file_id_from_hash h) index
        ≡ store_get tools.root tools.marshal tools.unmarshal t (file_id_from_hash h) index
  import_is_unseen marshal unmarshal seal unseal entry shards writable t t' m m' f f' h index plain
        long plain' l e =
      import_shards_other entry shards 0 t t' (file_id_from_hash h) index plain plain'
        (λ q. absurd (omega (arith, long, length-file_id_from_hash h l, ap length q)))
        (import_inv marshal unmarshal seal unseal entry shards writable t t' m m' f f' e)
