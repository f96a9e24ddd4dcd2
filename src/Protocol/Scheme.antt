-- ===== src/Protocol/Scheme.antt =====
-- What every scheme that BestScheme returns has in common.
use cerclbackup.Prelude.{ℕ, ◌≤◌, ◌<◌, ◌≡◌, ◌⊎◌, arith, ok, err}
use cerclbackup.Protocol.{RsScheme, total_shards, insufficient_buddies, best_scheme}

-- BestScheme refuses exactly the counts of buddies below 3. A scheme that it returns has more data
-- than parity shards, at least two data shards, at least one parity shard, and no more shards than
-- there are buddies.
pub best_scheme_sound :
    (buddies : ℕ)
    → ((best_scheme buddies ≡ err insufficient_buddies) × (buddies < 3))
      ⊎ ((s : RsScheme) × (best_scheme buddies ≡ ok s)
          × (3 ≤ buddies)
          × (2 ≤ s.data_shards)
          × (1 ≤ s.parity_shards)
          × (s.parity_shards < s.data_shards)
          × (total_shards s ≤ buddies))
unfolding best_scheme total_shards
best_scheme_sound buddies = ground arith

-- More buddies never make BestScheme choose fewer data shards or fewer parity shards.
pub best_scheme_mono :
    (few many : ℕ) (s t : RsScheme)
    → few ≤ many
    → best_scheme few ≡ ok s
    → best_scheme many ≡ ok t
    → (s.data_shards ≤ t.data_shards) × (s.parity_shards ≤ t.parity_shards)
unfolding best_scheme
best_scheme_mono few many s t h p q = ground arith
