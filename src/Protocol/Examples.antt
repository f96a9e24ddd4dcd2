-- ===== src/Protocol/Examples.antt =====
-- BestScheme at concrete counts of buddies.
use cerclbackup.Prelude.{◌≤◌, ◌<◌, ◌≡◌, ◌⊎◌, ok, err}
use cerclbackup.Protocol.{RsScheme, total_shards, insufficient_buddies, best_scheme}
use cerclbackup.Protocol.Scheme.{best_scheme_sound}

best_scheme_sound_example :
    ((best_scheme 6 ≡ err insufficient_buddies) × (6 < 3))
    ⊎ ((s : RsScheme) × (best_scheme 6 ≡ ok s)
        × (3 ≤ 6)
        × (2 ≤ s.data_shards)
        × (1 ≤ s.parity_shards)
        × (s.parity_shards < s.data_shards)
        × (total_shards s ≤ 6))
best_scheme_sound_example = best_scheme_sound 6
