-- ===== src/Codec/Examples.antt =====
-- A chunk of three bytes over the coder of the scheme 2/1.
use cerclbackup.Prelude.{◌≡◌, refl, inl, inr, List, [], ◌∷◌, arith, Bytes, take, ok, err}
use cerclbackup.Codec.{rs_failed, Encoder, split_chunk_to_shards, merge_shard_to_chunk}
use cerclbackup.Codec.RoundTrip.{merge_shard_to_chunk-split}
use cerclbackup.Codec.SumCode.{scheme, sum_encode, sum_code, sum_code-IsReedSolomon}

abbrev coder : Encoder
coder = record { rs = sum_code; scheme = scheme }

abbrev chunk : Bytes
chunk = 1 ∷ 2 ∷ 3 ∷ []

abbrev coded : List Bytes
coded = (1 ∷ 2 ∷ []) ∷ (3 ∷ 0 ∷ []) ∷ (4 ∷ 2 ∷ []) ∷ []

split_three : split_chunk_to_shards coder chunk ≡ ok coded
unfolding split_chunk_to_shards sum_encode
split_three = refl

-- A chunk without bytes cannot be coded, although the code never says so itself.
split_nothing : split_chunk_to_shards coder [] ≡ err rs_failed
unfolding split_chunk_to_shards sum_encode
split_nothing = refl

merge_shard_to_chunk-split_example :
    (merged : Bytes) × (merge_shard_to_chunk coder ([] ∷ (3 ∷ 0 ∷ []) ∷ (4 ∷ 2 ∷ []) ∷ [])
      ≡ ok merged)
    × (take 3 merged ≡ chunk)
merge_shard_to_chunk-split_example =
    merge_shard_to_chunk-split coder sum_code-IsReedSolomon chunk coded
      ([] ∷ (3 ∷ 0 ∷ []) ∷ (4 ∷ 2 ∷ []) ∷ []) (omega arith) (omega arith) split_three
      (inr refl, (inl refl, (inl refl, tt))) (omega arith)
