-- ===== src/Codec/RoundTrip.antt =====
-- What a split chunk and its damaged shards are worth, over a coder that keeps its promises.
use cerclbackup.Prelude.{
  ℕ, zero, suc, ◌+◌, ◌*◌, ◌/◌, ◌≤◌, ◌<◌, ◌≡◌, ap, ◌∙◌, some, List, [], ◌∷◌, ◌++◌, arith, Bytes,
  length, take, drop, replicate, length-append, length-replicate, ok,
}
use cerclbackup.Protocol.{total_shards}
use cerclbackup.Codec.Coder.{AllOf, Damaged, survivors, IsReedSolomon}
use cerclbackup.Codec.{
  Encoder, slices, encode, padded, split_chunk_to_shards, concat, merge_shard_to_chunk,
}
use cerclbackup.Codec.Split.{
  length-padded, length-padded_bounds, take-padded, length-slices, slices-AllOf, concat-slices,
}

replicate-AllOf : (n size : ℕ) → AllOf size (replicate n (replicate size 0))
replicate-AllOf zero size = tt
replicate-AllOf (suc n) size = (length-replicate {A = ℕ} size 0, replicate-AllOf n size)

append-AllOf :
    (size : ℕ) (front back : List Bytes)
    → AllOf size front
    → AllOf size back
    → AllOf size (front ++ back)
append-AllOf size [] back f b = b
append-AllOf size (x ∷ front) back (h, f) b = (h, append-AllOf size front back f b)

module _ (e : Encoder) (laws : IsReedSolomon e.rs e.scheme) where
  -- Encode on as many data shards as the scheme has, all of one positive size.
  encode_lem :
      (size : ℕ) (data_part : List Bytes)
      → 0 < size
      → 0 < e.scheme.data_shards
      → length data_part ≡ e.scheme.data_shards
      → AllOf size data_part
      → (parity : List Bytes) × (encode e data_part ≡ ok (data_part ++ parity))
        × (length parity ≡ e.scheme.parity_shards)
        × AllOf size parity
        × ((shards : List Bytes) × (e.rs.encode shards ≡ some (data_part ++ parity)))
  unfolding encode
  encode_lem size [] h d l a = absurd (omega arith)
  encode_lem size (x ∷ xs) h d l (hx, a) =
      let zeros : List Bytes = replicate e.scheme.parity_shards (replicate (length x) 0) in
      let (parity, coded, count, sizes) =
        laws.encodes size (x ∷ xs) zeros h l (length-replicate _ _) (hx, a)
          (rw hx (replicate-AllOf e.scheme.parity_shards size)) in
      (parity, ground (arith, coded), count, sizes, ((x ∷ xs) ++ zeros, coded))

  module _ (chunk : Bytes) (some_bytes : 0 < length chunk)
      (some_shards : 0 < e.scheme.data_shards) where
    abbrev n : ℕ
    n = e.scheme.data_shards

    abbrev size : ℕ
    size = length (padded n chunk) / n

    size_pos : 0 < size
    size_pos =
        let (lo, hi) = length-padded_bounds n chunk some_shards in
        grind (arith, length-padded n chunk some_shards)

    split_lem :
        (parity : List Bytes) × (split_chunk_to_shards e chunk
          ≡ ok (slices n 0 size (padded n chunk) ++ parity))
        × (length parity ≡ e.scheme.parity_shards)
        × AllOf size parity
        × ((shards : List Bytes) × (e.rs.encode shards
              ≡ some (slices n 0 size (padded n chunk) ++ parity)))
    unfolding split_chunk_to_shards
    split_lem =
        encode_lem size (slices n 0 size (padded n chunk)) size_pos some_shards
          (length-slices n 0 size (padded n chunk))
          (slices-AllOf n 0 size (padded n chunk)
            (omega (arith, length-padded n chunk some_shards)))

    -- Over a coder that keeps its promises, with a scheme that has a data shard: SplitChunkToShards
    -- turns every chunk that is not empty into as many shards as the scheme has, all of one size: the least number of bytes that, times
    -- the data shards, holds the chunk.
    pub split_chunk_to_shards_total :
        (shards : List Bytes) × (size : ℕ) × (split_chunk_to_shards e chunk ≡ ok shards)
        × (length shards ≡ total_shards e.scheme)
        × AllOf size shards
        × (length chunk ≤ e.scheme.data_shards * size)
        × (e.scheme.data_shards * size < length chunk + e.scheme.data_shards)
    unfolding total_shards
    split_chunk_to_shards_total =
        let (lo, hi) = length-padded_bounds n chunk some_shards in
        let exact = length-padded n chunk some_shards in
        let front : List Bytes = slices n 0 size (padded n chunk) in
        let (parity, split, count, sizes, coded) = split_lem in
        (
          front ++ parity,
          size,
          split,
          omega (arith, length-append front parity, length-slices n 0 size (padded n chunk)),
          append-AllOf size front parity (slices-AllOf n 0 size (padded n chunk) (omega arith))
              sizes,
          omega arith,
          omega arith,
        )

  -- Over a coder that keeps its promises, with a scheme that has a data shard, for a chunk that is not
  -- empty: whichever shards of a split chunk are lost, if as many are left as the scheme has data
  -- shards, MergeShardToChunk returns bytes that begin with the chunk.
  pub merge_shard_to_chunk-split :
      (chunk : Bytes) (shards damaged : List Bytes)
      → 0 < length chunk
      → 0 < e.scheme.data_shards
      → split_chunk_to_shards e chunk ≡ ok shards
      → Damaged shards damaged
      → e.scheme.data_shards ≤ survivors damaged
      → (merged : Bytes) × (merge_shard_to_chunk e damaged ≡ ok merged)
        × (take (length chunk) merged ≡ chunk)
  unfolding merge_shard_to_chunk
  merge_shard_to_chunk-split chunk shards damaged b d s h k =
      let n : ℕ = e.scheme.data_shards in
      let full : Bytes = padded n chunk in
      let size : ℕ = length full / n in
      let (parity, split, count, sizes, (source, coded)) = split_lem chunk b d in
      let same : shards ≡ slices n 0 size full ++ parity = cc in
      let whole : e.rs.reconstruct damaged ≡ some shards =
        laws.reconstructs source shards damaged (rw same coded) h k in
      let nothing : 0 * size ≡ 0 = omega arith in
      let merged : concat n shards ≡ full = rw same (
        concat-slices n 0 size full parity (omega (arith, length-padded n chunk d))
        ∙ ap (λ (k : ℕ). drop k full) nothing) in
      (full, rw (whole, merged), take-padded n chunk d)
