-- ===== src/Protocol.antt =====
-- pkg/protocol/messages.go: the shared types, and the choice of a Reed-Solomon scheme.
pub mod Scheme
pub mod Examples
use cerclbackup.Prelude.{ℕ, ◌+◌, Bool, List, leb, if◌then◌else◌, Text, Result, ok, err}

pub record RsScheme : Type 0 where
  pub data_shards : ℕ
  pub parity_shards : ℕ

unfoldable pub total_shards : RsScheme → ℕ
total_shards s = s.data_shards + s.parity_shards

pub data SchemeError : Type 0 where
  insufficient_buddies : SchemeError

-- BestScheme
unfoldable pub best_scheme : ℕ → Result SchemeError RsScheme
best_scheme buddies =
    if leb 10 buddies
    then ok (record { data_shards = 6; parity_shards = 4 })
    else if leb 8 buddies
    then ok (record { data_shards = 5; parity_shards = 3 })
    else if leb 5 buddies
    then ok (record { data_shards = 3; parity_shards = 2 })
    else if leb 3 buddies
    then ok (record { data_shards = 2; parity_shards = 1 })
    else err insufficient_buddies

-- protocol.ShardLocation
pub record ShardLocation : Type 0 where
  pub shard_index : ℕ
  pub is_parity : Bool
  pub buddy_id : Text
  pub storage_key : Text

-- protocol.ManifestEntry. A time is the number of nanoseconds since Go's zero time.
pub record ManifestEntry : Type 0 where
  pub file_id : Text
  pub path : Text
  pub hash : Text
  pub size : ℕ
  pub modified : ℕ
  pub scheme : RsScheme
  pub shards : List ShardLocation
  pub version : ℕ
  pub backed_at : ℕ
  pub compressed : Bool
