-- ===== src/Codec/Coder.antt =====
-- klauspost/reedsolomon, as internal/codec uses it: a coder for one scheme, and what its
-- documentation promises.
use cerclbackup.Prelude.{
  ℕ, suc, ◌≤◌, ◌<◌, ◌≡◌, ◌⊎◌, Option, some, List, [], ◌∷◌, ◌++◌, Bytes, length, All,
}
use cerclbackup.Protocol.{RsScheme}

-- `none` stands for an error.
pub record Backend : Type 0 where
  pub encode : List Bytes → Option (List Bytes)
  pub reconstruct : List Bytes → Option (List Bytes)

-- Every shard has `size` bytes.
abbrev pub AllOf : ℕ → List Bytes → Type 0
AllOf size shards = All (λ (s : Bytes). length s ≡ size) shards

-- `Damaged whole shards`: each of the shards is that of `whole`, or empty.
abbrev pub Damaged : List Bytes → List Bytes → Type 0
Damaged [] [] = Unit
Damaged [] (s ∷ shards) = ⊥
Damaged (w ∷ whole) [] = ⊥
Damaged (w ∷ whole) (s ∷ shards) = ((s ≡ w) ⊎ (s ≡ [])) × Damaged whole shards

-- How many shards are there.
abbrev pub survivors : List Bytes → ℕ
survivors [] = 0
survivors ([] ∷ shards) = survivors shards
survivors ((x ∷ s) ∷ shards) = suc (survivors shards)

-- The documented behaviour of Encode and Reconstruct for a scheme: coding shards of one positive
-- size fills in the parity shards and keeps the data shards, and of a coded list with enough
-- shards left all shards come back.
pub record IsReedSolomon (rs : Backend) (s : RsScheme) : Type 0 where
  pub encodes :
      (size : ℕ) (data_part parity_part : List Bytes)
      → 0 < size
      → length data_part ≡ s.data_shards
      → length parity_part ≡ s.parity_shards
      → AllOf size data_part
      → AllOf size parity_part
      → (parity : List Bytes) × (rs.encode (data_part ++ parity_part) ≡ some (data_part ++ parity))
        × (length parity ≡ s.parity_shards)
        × AllOf size parity
  pub reconstructs :
      (shards whole damaged : List Bytes)
      → rs.encode shards ≡ some whole
      → Damaged whole damaged
      → s.data_shards ≤ survivors damaged
      → rs.reconstruct damaged ≡ some whole
