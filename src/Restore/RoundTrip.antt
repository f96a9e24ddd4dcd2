-- ===== src/Restore/RoundTrip.antt =====
-- A file that was backed up is restored, from whatever enough of its shards are left.
use cerclbackup.Prelude.{
  ℕ, ◌/◌, ◌≡◌, sym, ap, ◌∙◌, subst, inl, inr, true, false, Option, none, some, List, [], arith,
  Option-cases, nat_eq, list_eq, Bytes, Text, length, lookup, insert, lookup-insert_self, Result,
  ok, Result-cases,
}
use cerclbackup.Io.{Reader, Writer}
use cerclbackup.Chunker.{Chunk, default_chunk_size, chunk_file}
use cerclbackup.Protocol.{RsScheme, total_shards, ShardLocation, ManifestEntry}
use cerclbackup.Codec.Coder.{Backend, Damaged}
use cerclbackup.Crypto.{derive_file_key}
use cerclbackup.Files.{Tree}
use cerclbackup.Files.Paths.{IsPlain}
use cerclbackup.Hex.{to_hex}
use cerclbackup.Manifest.{Entries, values, next_version, new_entry, upsert, sink}
use cerclbackup.Backup.{
  Tools, BackupError, file_hash_from_chunks, file_id_from_hash, new_encoder, store_chunks, Source,
  store_file, chunked, upload, enter_file, backup_one_file,
}
use cerclbackup.Backup.Contents.{chunk_file-contents}
use cerclbackup.Backup.Stored.{Backed, store_chunks_lem}
use cerclbackup.Restore.{
  Request, chosen_entry, hex_to_hash, Network, raw_shards, restore_entry, restore,
}
use cerclbackup.Restore.Groups.{alone, EnoughLeft}
use cerclbackup.Restore.Recovery.{
  IsFaithful, IsCoder, hex_to_hash-to_hex, Decrypts_lem, digest_of_chunks, id_of_chunks-IsPlain,
  groups_of_entry, restore_entry-Backed,
}
use mathlib.Core.Path.{ap₂}

module _ (tools : Tools) (nonces : ℕ → Option Bytes) where
  -- What a backup that succeeds says of its parts.
  pub backup_one_file_inv :
      (master_key : Bytes) (scheme : RsScheme) (src : Source) (t t1 : Tree) (m m1 : Entries)
      (entry : ManifestEntry) (cs : List Chunk)
      → backup_one_file tools nonces master_key scheme src t m ≡ (ok entry, t1, m1)
      → chunk_file tools.sha256 src.opened default_chunk_size ≡ some (ok cs)
      → (key : Bytes) × (rs : Backend) × (locations : List ShardLocation) × (derive_file_key
            tools.crypto master_key
            (file_hash_from_chunks tools cs)
          ≡ ok key)
        × (tools.new_coder scheme ≡ some rs)
        × (store_chunks tools nonces key
              (file_id_from_hash (file_hash_from_chunks tools cs))
              (record { rs = rs; scheme = scheme })
              0
              cs
              t
            ≡ (ok locations, t1))
        × (entry.shards ≡ locations)
        × (entry.scheme ≡ scheme)
        × (entry.compressed ≡ true)
        × (entry.hash ≡ to_hex (file_hash_from_chunks tools cs))
        × (lookup src.uuid m1 ≡ some entry)
  unfolding backup_one_file chunked store_file new_encoder enter_file upload upsert new_entry
  backup_one_file_inv master_key scheme src t t1 m m1 entry cs h c =
      let hash : Bytes = file_hash_from_chunks tools cs in
      elim (Result-cases (derive_file_key tools.crypto master_key hash)) [
        | inr (x, k) ↦ absurd (ground (arith, h, c, k))
        | inl (key, k) ↦ elim (Option-cases (tools.new_coder scheme)) [
          | inl n ↦ absurd (ground (arith, h, c, k, n))
          | inr (rs, n) ↦
              let stored : Result BackupError (List ShardLocation) × Tree =
                store_chunks tools nonces key (file_id_from_hash hash)
                  (record { rs = rs; scheme = scheme }) 0 cs t in
              elim (Result-cases stored.0) [
                | inr (x, s) ↦ absurd (ground (arith, h, c, k, n, s))
                | inl (locations, s) ↦ elim (Option-cases src.stat) [
                  | inl o ↦ absurd (ground (arith, h, c, k, n, s, o))
                  | inr (modified, o) ↦
                      let e0 : ManifestEntry =
                        new_entry (upload src scheme hash locations) modified
                          (next_version src.path 1 (values m)) in
                      let packed : ManifestEntry = record e0 { compressed = true } in
                      let here : entry ≡ packed = ground (arith, h, c, k, n, s, o) in
                      let last : stored.1 ≡ t1 = ground (arith, h, c, k, n, s, o) in
                      let made : m1 ≡ insert src.uuid packed (insert src.uuid e0 m) =
                        ground (arith, h, c, k, n, s, o) in
                      (
                        key,
                        rs,
                        locations,
                        k,
                        n,
                        ap₂ (λ (a : Result BackupError (List ShardLocation)) (b : Tree). (a, b)) s
                            last,
                        ap (λ (e : ManifestEntry). e.shards) here,
                        ap (λ (e : ManifestEntry). e.scheme) here,
                        ap (λ (e : ManifestEntry). e.compressed) here,
                        ap (λ (e : ManifestEntry). e.hash) here,
                        rw (made, here) (lookup-insert_self src.uuid packed (insert src.uuid e0 m)),
                      )
                ]
              ]
        ]
      ]

  restore_chosen :
      (net : Network) (master_key : Bytes) (sink : Option Writer) (t : Tree) (m : Entries)
      (request : Request) (entry : ManifestEntry)
      → chosen_entry request m ≡ some entry
      → restore tools net master_key sink t m request
        ≡ restore_entry tools net master_key sink t entry
  unfolding restore
  restore_chosen net master_key sink t m request entry chosen = ground (arith, chosen)

  -- Over libraries that do what they document, for a file that was backed up with a scheme for which
  -- there is a coder, and a disk and buddies from which the restore finds of each shard the one that
  -- was stored or none: if of every chunk at least as many shards are found as the scheme has data
  -- shards, Restore of that version succeeds and its output is the content of the file.
  pub restore-backup_one_file :
      (master_key hash key content : Bytes) (scheme : RsScheme) (rs : Backend) (src : Source)
      (t t1 t2 : Tree) (m m1 m2 : Entries) (entry : ManifestEntry) (net : Network)
      (request : Request)
      → IsFaithful tools nonces
      → IsCoder tools scheme rs
      → src.opened ≡ some (record { content = content; fails = false })
      → backup_one_file tools nonces master_key scheme src t m ≡ (ok entry, t1, m1)
      → hex_to_hash entry.hash ≡ some hash
      → derive_file_key tools.crypto master_key hash ≡ ok key
      → Damaged
          (raw_shards tools alone key (file_id_from_hash hash) t1 entry.shards)
          (raw_shards tools net key (file_id_from_hash hash) t2 entry.shards)
      → EnoughLeft scheme
          (length entry.shards / total_shards scheme)
          (raw_shards tools net key (file_id_from_hash hash) t2 entry.shards)
      → chosen_entry request m2 ≡ some entry
      → restore tools net master_key (some (record { written = []; room = none })) t2 m2 request
        ≡ (ok entry, some content)
  restore-backup_one_file master_key hash key content scheme rs src t t1 t2 m m1 m2 entry net
        request laws coder opened backed h k damaged enough chosen =
      let (cs, cf, hashed, whole) = chunk_file-contents tools.sha256 content in
      let c : chunk_file tools.sha256 src.opened default_chunk_size ≡ some (ok cs) =
        ap (λ (r : Option Reader). chunk_file tools.sha256 r default_chunk_size) opened ∙ cf in
      let (key', rs', locations, k', n', stored, shards, at_scheme, packed, at_hash, _) =
        backup_one_file_inv master_key scheme src t t1 m m1 entry cs backed c in
      let h0 : Bytes = file_hash_from_chunks tools cs in
      let (long, bytes) = digest_of_chunks tools nonces cs laws in
      let same_hash : hash ≡ h0 =
        ground (arith, h, ap hex_to_hash at_hash ∙ hex_to_hash-to_hex h0 long bytes) in
      let derived : derive_file_key tools.crypto master_key h0 ≡ ok key =
        ap (derive_file_key tools.crypto master_key) (sym same_hash) ∙ k in
      let same_key : key' ≡ key = ground (arith, derived, k') in
      let same_rs : rs' ≡ rs = ground (arith, coder.made, n') in
      let id : Text = file_id_from_hash h0 in
      let plain : IsPlain id = id_of_chunks-IsPlain tools nonces cs laws in
      let backed_as : Bytes → Backend → List ShardLocation → Type 0 =
        λ f r ls. Backed tools nonces f id plain (record { rs = r; scheme = scheme }) t1 0 cs ls in
      let (all_backed, _) =
        store_chunks_lem tools nonces key' id plain (record { rs = rs'; scheme = scheme }) 0 cs t t1
          locations (Decrypts_lem tools nonces key' id plain laws) stored in
      let here : backed_as key rs entry.shards =
        subst (λ (f : Bytes). backed_as f rs entry.shards) same_key
          (subst (λ (r : Backend). backed_as key' r entry.shards) same_rs
            (subst (backed_as key' rs') (sym shards) all_backed)) in
      let (groups, _) =
        groups_of_entry tools nonces key scheme rs cs t1 entry laws coder hashed here in
      let raws : Network → Tree → Bytes → List Bytes =
        λ n tr g. raw_shards tools n key (file_id_from_hash g) tr entry.shards in
      restore_chosen net master_key (some (record { written = []; room = none })) t2 m2 request
        entry chosen
      ∙ restore_entry-Backed tools nonces master_key key scheme rs cs t1 t2 entry net laws coder
          hashed derived here at_scheme packed at_hash
          (subst (λ (g : Bytes). Damaged (raws alone t1 g) (raws net t2 g)) same_hash damaged)
          (subst (λ (i : ℕ). EnoughLeft scheme i (raws net t2 h0)) groups
            (subst
              (λ (g : Bytes).
                EnoughLeft scheme (length entry.shards / total_shards scheme) (raws net t2 g))
              same_hash enough))
      ∙ ap (λ (b : Bytes). (ok entry, some b)) whole
