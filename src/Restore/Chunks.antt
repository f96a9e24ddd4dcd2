-- ===== src/Restore/Chunks.antt =====
-- One chunk restored, and the loop over them.
use cerclbackup.Prelude.{
  ℕ, suc, ◌^◌, ◌≤◌, ◌<◌, ◌≡◌, sym, ap, ◌∙◌, inl, inr, Bool, true, Option, none, List, [], ◌∷◌, ◌++◌,
  append-nil, append_assoc, arith, ◌==◌, nat_eq, list_eq, Bytes, Text, length, take, drop,
  take-append_length, drop-append_length, ok, Result-cases,
}
use cerclbackup.Io.{Writer, write, write-unlimited}
use cerclbackup.Chunker.{Chunk}
use cerclbackup.Protocol.{total_shards, ShardLocation, ManifestEntry}
use cerclbackup.Codec.{Encoder, split_chunk_to_shards, merge_shard_to_chunk}
use cerclbackup.Codec.Coder.{Damaged, survivors, IsReedSolomon}
use cerclbackup.Codec.RoundTrip.{merge_shard_to_chunk-split}
use cerclbackup.Compress.{decompress}
use cerclbackup.Compress.RoundTrip.{IsZstd, compress_prefix}
use cerclbackup.Files.{Tree}
use cerclbackup.Backup.{Tools, coded_chunk}
use cerclbackup.Backup.Contents.{content_of, contents_of, hashed_contents_of}
use cerclbackup.Restore.{Network, raw_shards, unpacked, chunk_data, restore_loop}

module _ (tools : Tools) (enc : Encoder) (laws : IsReedSolomon enc.rs enc.scheme)
    (some_data : 0 < enc.scheme.data_shards) (zstd : IsZstd tools.zstd) (file_key : Bytes)
    (id : Text) where
  -- The frame of a chunk is shorter than 2^32 bytes.
  abbrev pub FitsFrame : Chunk → Type 0
  FitsFrame c = length (tools.zstd.encode_all (content_of c)) < 2 ^ 32

  -- Of the shards of a chunk, those that are left are enough: the chunk comes back.
  chunk_comes_back :
      (nonces : ℕ → Option Bytes) (c : Chunk) (shards damaged : List Bytes)
      → FitsFrame c
      → coded_chunk tools nonces file_key id enc c ≡ ok shards
      → Damaged shards damaged
      → enc.scheme.data_shards ≤ survivors damaged
      → (merged : Bytes) × (merge_shard_to_chunk enc damaged ≡ ok merged)
        × (decompress tools.zstd merged ≡ ok (content_of c))
  unfolding coded_chunk
  chunk_comes_back nonces c shards damaged fits h d k =
      let (packed, e, four, back) = compress_prefix tools.zstd (content_of c) zstd fits in
      elim (Result-cases (split_chunk_to_shards enc packed)) [
        | inr (x, s) ↦ absurd (ground (arith, h, e, s))
        | inl (all, s) ↦
            let same : all ≡ shards = ground (arith, h, e, s) in
            let (merged, m, front) =
              merge_shard_to_chunk-split enc laws packed shards damaged (omega arith) some_data
                (s ∙ ap ok same) d k in
            (merged, m, back merged front)
      ]

  module _ (net : Network) (t : Tree) where
    abbrev pub raws : List ShardLocation → List Bytes
    raws = raw_shards tools net file_key id t

    -- What the loop finds of each chunk: as many locations as the scheme has shards, of which enough
    -- give the shard that was made, and the others none.
    abbrev pub Recoverable : (ℕ → Option Bytes) → List Chunk → List ShardLocation → Type 0
    Recoverable nonces [] locations = locations ≡ []
    Recoverable nonces (c ∷ cs) locations =
        (shards : List Bytes) × (front : List ShardLocation) × (rest : List ShardLocation)
        × (coded_chunk tools nonces file_key id enc c ≡ ok shards)
        × FitsFrame c
        × (locations ≡ front ++ rest)
        × (length front ≡ total_shards enc.scheme)
        × Damaged shards (raws front)
        × (enc.scheme.data_shards ≤ survivors (raws front))
        × Recoverable nonces cs rest

    abbrev hashed_contents : List Chunk → Bytes
    hashed_contents = hashed_contents_of tools.sha256

    chunk_data_lem :
        (entry : ManifestEntry) (last : Bool) (front : List ShardLocation) (merged content : Bytes)
        → entry.compressed ≡ true
        → merge_shard_to_chunk enc (raws front) ≡ ok merged
        → decompress tools.zstd merged ≡ ok content
        → chunk_data tools net file_key id t enc entry last front ≡ ok content
    unfolding chunk_data unpacked
    chunk_data_lem entry last front merged content z m back = ground (arith, z, m, back)

    -- A round of the loop whose chunk and whose write succeed.
    restore_loop_step :
        (entry : ManifestEntry) (n : ℕ) (locations : List ShardLocation) (hashes content : Bytes)
        (out out' : Writer)
        → chunk_data tools net file_key id t enc entry
            (n == 0)
            (take (total_shards enc.scheme) locations)
          ≡ ok content
        → write out content ≡ ok out'
        → restore_loop tools net file_key id t enc entry (suc n) locations hashes out
          ≡ restore_loop tools net file_key id t enc entry n
              (drop (total_shards enc.scheme) locations)
              (hashes ++ tools.sha256 content)
              out'
    unfolding restore_loop
    restore_loop_step entry n locations hashes content out out' one w = ground (arith, one, w)

    pub restore_loop_lem :
        (nonces : ℕ → Option Bytes) (entry : ManifestEntry) (cs : List Chunk)
        (locations : List ShardLocation) (hashes : Bytes) (out : Writer)
        → entry.compressed ≡ true
        → out.room ≡ none
        → Recoverable nonces cs locations
        → restore_loop tools net file_key id t enc entry (length cs) locations hashes out ≡ (
          ok (hashes ++ hashed_contents cs),
          record out { written = out.written ++ contents_of cs },
        )
    unfolding restore_loop
    restore_loop_lem nonces entry [] locations hashes out z open_sink r =
        rw (append-nil hashes, append-nil out.written)
    restore_loop_lem nonces entry (c ∷ cs) locations hashes out z open_sink
          (shards, front, rest, coded, fits, all, count, damaged, enough, more) =
        let n : ℕ = total_shards enc.scheme in
        let (merged, m, back) =
          chunk_comes_back nonces c shards (raws front) fits coded damaged enough in
        let first : take n locations ≡ front =
          ap (take n) all
          ∙ ap (λ (i : ℕ). take i (front ++ rest)) (sym count)
          ∙ take-append_length front rest in
        let others : drop n locations ≡ rest =
          ap (drop n) all
          ∙ ap (λ (i : ℕ). drop i (front ++ rest)) (sym count)
          ∙ drop-append_length front rest in
        let one =
          ap
            (λ (ls : List ShardLocation).
              chunk_data tools net file_key id t enc entry (length cs == 0) ls)
            first
          ∙ chunk_data_lem entry (length cs == 0) front merged (content_of c) z m back in
        let grown : Writer = record out { written = out.written ++ content_of c } in
        let next =
          restore_loop_lem nonces entry cs rest (hashes ++ tools.sha256 (content_of c)) grown z
            open_sink more in
        restore_loop_step entry (length cs) locations hashes (content_of c) out grown one
          (write-unlimited out (content_of c) open_sink)
        ∙ rw (others, next)
            (rw (
              append_assoc hashes (tools.sha256 (content_of c)) (hashed_contents cs),
              append_assoc out.written (content_of c) (contents_of cs),
            ))
