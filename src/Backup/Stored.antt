-- ===== src/Backup/Stored.antt =====
-- What the store holds after the shards of a file were stored.
use cerclbackup.Prelude.{
  ℕ, ◌+◌, ◌≤◌, ◌<◌, ◌≡◌, refl, sym, ap, ◌∙◌, subst, inl, inr, Bool, Option, List, [], ◌∷◌, ◌++◌,
  arith, leb, Bytes, Text, length, Result, ok, Result-cases,
}
use cerclbackup.Chunker.{Chunk}
use cerclbackup.Protocol.{ShardLocation}
use cerclbackup.Codec.{Encoder}
use cerclbackup.Crypto.{encrypt_shard, decrypt_shard}
use cerclbackup.Storage.{StorageError, store_put, store_get}
use cerclbackup.Storage.Shards.{fetch-put}
use cerclbackup.Files.{Tree}
use cerclbackup.Files.Decimal.{ℤ, pos, negsuc}
use cerclbackup.Files.Paths.{IsPlain}
use cerclbackup.Backup.{Tools, BackupError, location, store_shards, coded_chunk, store_chunks}
use mathlib.Core.Path.{ap₂}

abbrev whole_part : ℤ → ℕ
whole_part (pos n) = n
whole_part (negsuc n) = 0

module _ (tools : Tools) (nonces : ℕ → Option Bytes) (file_key : Bytes) (id : Text)
    (plain : IsPlain id) where
  abbrev pub kept : Tree → ℕ → Result StorageError Bytes
  kept t index = store_get tools.root tools.marshal tools.unmarshal t id (pos index)

  -- Under the indices from `counter` on, the store holds blobs that decrypt to the shards.
  abbrev pub Holds : Tree → ℕ → List Bytes → Type 0
  Holds t counter [] = Unit
  Holds t counter (s ∷ shards) =
      ((blob : Bytes) × (kept t counter ≡ ok blob)
        × (decrypt_shard tools.crypto file_key (pos counter) blob ≡ ok s))
      × Holds t (counter + 1) shards

  -- Below an index the store is the same.
  abbrev pub SameBelow : ℕ → Tree → Tree → Type 0
  SameBelow n t t' = (index : ℕ) → index < n → kept t' index ≡ kept t index

  pub Holds-SameBelow :
      (t t' : Tree) (n counter : ℕ) (shards : List Bytes)
      → counter + length shards ≤ n
      → SameBelow n t t'
      → Holds t counter shards
      → Holds t' counter shards
  Holds-SameBelow t t' n counter [] l same h = tt
  Holds-SameBelow t t' n counter (s ∷ shards) l same ((blob, k, d), h) = (
    (blob, same counter (omega arith) ∙ k, d),
    Holds-SameBelow t t' n (counter + 1) shards (omega arith) same h,
  )

  -- What encrypts decrypts, whatever the nonces are.
  abbrev pub Decrypts : Type 0
  Decrypts =
      (index : ℕ) (shard blob : Bytes)
      → encrypt_shard tools.crypto (nonces index) file_key (pos index) shard ≡ ok blob
      → decrypt_shard tools.crypto file_key (pos index) blob ≡ ok shard

  -- The locations name the indices from `counter` on.
  abbrev pub Indexed : ℕ → List ShardLocation → Type 0
  Indexed counter [] = Unit
  Indexed counter (l ∷ locations) = (l.shard_index ≡ counter) × Indexed (counter + 1) locations

  abbrev place : Tree → ℕ → Bool → Bytes → Result StorageError (Unit {0}) × Tree
  place t counter parity blob =
      store_put tools.root tools.marshal tools.unmarshal t id (pos counter) parity blob

  -- One round of the loop, when the loop succeeds.
  store_shards_inv :
      (data_shards ci si counter : ℕ) (shard : Bytes) (shards : List Bytes) (t t' : Tree)
      (locations : List ShardLocation)
      → store_shards tools nonces file_key id data_shards ci si counter (shard ∷ shards) t
        ≡ (ok locations, t')
      → (blob : Bytes) × (t1 : Tree) × (rest : List ShardLocation) × (encrypt_shard tools.crypto
            (nonces counter)
            file_key
            (pos counter)
            shard
          ≡ ok blob)
        × (place t counter (leb data_shards si) blob ≡ (ok tt, t1))
        × (store_shards tools nonces file_key id data_shards ci (si + 1) (counter + 1) shards t1
            ≡ (ok rest, t'))
        × (locations ≡ location counter (leb data_shards si) ci si ∷ rest)
  unfolding store_shards
  store_shards_inv data_shards ci si counter shard shards t t' locations h =
      let parity : Bool = leb data_shards si in
      elim (Result-cases
        (encrypt_shard tools.crypto (nonces counter) file_key (pos counter) shard)) [
          | inr (x, e) ↦ absurd (ground (arith, h, e))
          | inl (blob, e) ↦
              let after : Result StorageError (Unit {0}) × Tree = place t counter parity blob in
              let more : Result BackupError (List ShardLocation) × Tree =
                store_shards tools nonces file_key id data_shards ci (si + 1) (counter + 1) shards
                  after.1 in
              elim (Result-cases after.0) [
                | inr (x, p) ↦ absurd (ground (arith, h, e, p))
                | inl (u, p) ↦ elim (Result-cases more.0) [
                  | inr (x, r) ↦ absurd (ground (arith, h, e, p, r))
                  | inl (rest, r) ↦
                      let last : more.1 ≡ t' = ground (arith, h, e, p, r) in
                      let all : locations ≡ location counter parity ci si ∷ rest =
                        ground (arith, h, e, p, r) in
                      (
                        blob,
                        after.1,
                        rest,
                        e,
                        ap (λ (o : Result StorageError (Unit {0})). (o, after.1)) p,
                        ap₂ (λ (o : Result BackupError (List ShardLocation)) (u : Tree). (o, u)) r
                            last,
                        all,
                      )
                ]
              ]
        ]

  pub store_shards_lem :
      (data_shards ci si counter : ℕ) (shards : List Bytes) (t t' : Tree)
      (locations : List ShardLocation)
      → Decrypts
      → store_shards tools nonces file_key id data_shards ci si counter shards t
        ≡ (ok locations, t')
      → Holds t' counter shards
        × SameBelow counter t t'
        × (length locations ≡ length shards)
        × Indexed counter locations
  unfolding store_shards
  store_shards_lem data_shards ci si counter [] t t' locations back h =
      let same : t ≡ t' = ground (arith, h) in
      let none_left : [] ≡ locations = ground (arith, h) in
      (
        tt,
        λ index l. ap (λ (u : Tree). kept u index) (sym same),
        ap length (sym none_left),
        subst (Indexed counter) none_left tt,
      )
  store_shards_lem data_shards ci si counter (shard ∷ shards) t t' locations back h =
      let (blob, t1, rest, e, p, r, all) =
        store_shards_inv data_shards ci si counter shard shards t t' locations h in
      let (holds, same, count, indexed) =
        store_shards_lem data_shards ci (si + 1) (counter + 1) shards t1 t' rest back r in
      let put_at = λ (index : ℕ).
        fetch-put tools.root tools.marshal tools.unmarshal t t1 id id (pos counter) (pos index)
          (leb data_shards si) blob plain plain p in
      (
        ((blob, same counter (omega arith) ∙ (put_at counter).0, back counter shard blob e), holds),
        λ index l.
            same index (omega arith)
            ∙ (put_at index).1 (λ q. absurd (omega (arith, ap (λ (i : ℤ). whole_part i) q.1))),
        omega (arith, ap length all, count),
        subst (Indexed counter) (sym all) (unfold location in (refl, indexed)),
      )

  module _ (enc : Encoder) where
    -- The locations are those of the chunks' shards, group by group, and the store holds the shards.
    abbrev pub Backed : Tree → ℕ → List Chunk → List ShardLocation → Type 0
    Backed t counter [] locations = locations ≡ []
    Backed t counter (c ∷ cs) locations =
        (shards : List Bytes) × (front : List ShardLocation) × (rest : List ShardLocation)
        × (coded_chunk tools nonces file_key id enc c ≡ ok shards)
        × (locations ≡ front ++ rest)
        × (length front ≡ length shards)
        × Holds t counter shards
        × Indexed counter front
        × Backed t (counter + length shards) cs rest

    store_chunks_inv :
        (counter : ℕ) (c : Chunk) (cs : List Chunk) (t t' : Tree) (locations : List ShardLocation)
        → store_chunks tools nonces file_key id enc counter (c ∷ cs) t ≡ (ok locations, t')
        → (shards : List Bytes) × (front : List ShardLocation) × (rest : List ShardLocation)
          × (t1 : Tree) × (coded_chunk tools nonces file_key id enc c ≡ ok shards)
          × (store_shards tools nonces file_key id enc.scheme.data_shards c.index 0 counter shards t
              ≡ (ok front, t1))
          × (store_chunks tools nonces file_key id enc (counter + length shards) cs t1
              ≡ (ok rest, t'))
          × (locations ≡ front ++ rest)
    unfolding store_chunks
    store_chunks_inv counter c cs t t' locations h =
        elim (Result-cases (coded_chunk tools nonces file_key id enc c)) [
          | inr (x, e) ↦ absurd (ground (arith, h, e))
          | inl (shards, e) ↦
              let first : Result BackupError (List ShardLocation) × Tree =
                store_shards tools nonces file_key id enc.scheme.data_shards c.index 0 counter
                  shards t in
              let more : Result BackupError (List ShardLocation) × Tree =
                store_chunks tools nonces file_key id enc (counter + length shards) cs first.1 in
              elim (Result-cases first.0) [
                | inr (x, p) ↦ absurd (ground (arith, h, e, p))
                | inl (front, p) ↦ elim (Result-cases more.0) [
                  | inr (x, r) ↦ absurd (ground (arith, h, e, p, r))
                  | inl (rest, r) ↦
                      let last : more.1 ≡ t' = ground (arith, h, e, p, r) in
                      let all : locations ≡ front ++ rest = ground (arith, h, e, p, r) in
                      (
                        shards,
                        front,
                        rest,
                        first.1,
                        e,
                        ap (λ (o : Result BackupError (List ShardLocation)). (o, first.1)) p,
                        ap₂ (λ (o : Result BackupError (List ShardLocation)) (u : Tree). (o, u)) r
                            last,
                        all,
                      )
                ]
              ]
        ]

    pub store_chunks_lem :
        (counter : ℕ) (cs : List Chunk) (t t' : Tree) (locations : List ShardLocation)
        → Decrypts
        → store_chunks tools nonces file_key id enc counter cs t ≡ (ok locations, t')
        → Backed t' counter cs locations × SameBelow counter t t'
    unfolding store_chunks
    store_chunks_lem counter [] t t' locations back h =
        let same : t ≡ t' = ground (arith, h) in
        (ground (arith, h), λ index l. ap (λ (u : Tree). kept u index) (sym same))
    store_chunks_lem counter (c ∷ cs) t t' locations back h =
        let (shards, front, rest, t1, e, p, r, all) =
          store_chunks_inv counter c cs t t' locations h in
        let (holds, same, count, indexed) =
          store_shards_lem enc.scheme.data_shards c.index 0 counter shards t t1 front back p in
        let (backed, later) = store_chunks_lem (counter + length shards) cs t1 t' rest back r in
        (
          (
            shards,
            front,
            rest,
            e,
            all,
            count,
            Holds-SameBelow t1 t' (counter + length shards) counter shards (omega arith) later
                holds,
            indexed,
            backed,
          ),
          λ index l. later index (omega arith) ∙ same index l,
        )
