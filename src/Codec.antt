-- ===== src/Codec.antt =====
-- internal/codec/reedsolomon.go: chunks cut into shards, coded, and merged again. A nil shard and
-- an empty one are the same, as they are to klauspost/reedsolomon.
pub mod Coder
pub mod Split
pub mod RoundTrip
pub mod SumCode
pub mod Examples
use cerclbackup.Prelude.{
  ℕ, zero, suc, ◌+◌, ◌-◌, ◌*◌, ◌/◌, ◌%◌, Option, none, some, List, [], ◌∷◌, ◌++◌, if◌then◌else◌,
  ◌==◌, nat_eq, list_eq, Bytes, length, take, drop, replicate, Result, ok, err, ◌>>=◌, ◌>>◌,
}
use cerclbackup.Protocol.{RsScheme}
use cerclbackup.Codec.Coder.{Backend}

pub data CodecError : Type 0 where
  wrong_count no_data rs_failed : CodecError

-- Encoder: the scheme, and the coder that reedsolomon.New made for it.
pub record Encoder : Type 0 where
  pub rs : Backend
  pub scheme : RsScheme

-- The slices chunk[i*shardSize : (i+1)*shardSize] for i from `index` on.
unfoldable pub slices : ℕ → ℕ → ℕ → Bytes → List Bytes
slices zero index shard_size chunk = []
slices (suc n) index shard_size chunk =
    take shard_size (drop (index * shard_size) chunk) ∷ slices n (index + 1) shard_size chunk

-- What rs.Encode and rs.Reconstruct return, with the errors of this package.
unfoldable pub wrap : Option (List Bytes) → Result CodecError (List Bytes)
wrap none = err rs_failed
wrap (some shards) = ok shards

-- Encode(data). The empty list stands for the panic of `data[0]` at no data shards.
unfoldable pub encode : Encoder → List Bytes → Result CodecError (List Bytes)
unfolding wrap
encode e [] = if length {A = Bytes} [] == e.scheme.data_shards then err no_data else err wrong_count
encode e (x ∷ xs) =
    if length (x ∷ xs) == e.scheme.data_shards
    then wrap (e.rs.encode ((x ∷ xs) ++ replicate e.scheme.parity_shards (replicate (length x) 0)))
    else err wrong_count

-- The chunk with zeros up to the next multiple of DataShards.
unfoldable pub padded : ℕ → Bytes → Bytes
padded n chunk =
    let rem : ℕ = length chunk % n in if rem == 0 then chunk else chunk ++ replicate (n - rem) 0

-- SplitChunkToShards(chunk)
unfoldable pub split_chunk_to_shards : Encoder → Bytes → Result CodecError (List Bytes)
unfolding padded slices encode
split_chunk_to_shards e chunk =
    let n : ℕ = e.scheme.data_shards in
    let full : Bytes = padded n chunk in encode e (slices n 0 (length full / n) full)

-- The first n shards, one behind the other.
unfoldable pub concat : ℕ → List Bytes → Bytes
concat zero shards = []
concat (suc n) [] = []
concat (suc n) (s ∷ shards) = s ++ concat n shards

-- MergeShardToChunk(shards)
unfoldable pub merge_shard_to_chunk : Encoder → List Bytes → Result CodecError Bytes
unfolding wrap concat
merge_shard_to_chunk e shards = do
  whole ← wrap (e.rs.reconstruct shards)
  ok (concat e.scheme.data_shards whole)
