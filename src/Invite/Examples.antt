-- ===== src/Invite/Examples.antt =====
-- A token and a commitment, used once and twice.
use cerclbackup.Prelude.{
  ◌≡◌, refl, ◌≢◌, ◌↔◌, ◌⊎◌, List, [], ◌∷◌, nat_eq, list_beq, list_eq, Bytes, replicate, ok, err,
}
use cerclbackup.Invite.{Pending, PendingStore, unknown_or_expired, consume}
use cerclbackup.Invite.Tokens.{Redeemable, Unknown, on_disk, consume_sound, consume_once}

abbrev token : Bytes
token = 1 ∷ 2 ∷ []

abbrev store : PendingStore
store = record {
  pending =
      record { token = token; expires_at = 50 } ∷ record { token = 3 ∷ []; expires_at = 9 } ∷ [];
  commitments = record { hash = 8 ∷ []; expires_at = 40 } ∷ [];
}

consumed_once : consume token 20 (on_disk store) ≡ (ok tt, on_disk (record store { pending = [] }))
unfolding consume list_beq
consumed_once = refl

consume_sound_example :
    (Redeemable token 20 store.pending
      × ((left : List Pending) × (consume token 20 (on_disk store)
            ≡ (ok tt, on_disk (record store { pending = left })))
          × Unknown token left
          × ((other : Bytes)
              → other ≢ token
              → Redeemable other 20 left ↔ Redeemable other 20 store.pending)))
    ⊎ ((Redeemable token 20 store.pending → ⊥)
        × (consume token 20 (on_disk store) ≡ (err unknown_or_expired, on_disk store)))
consume_sound_example = consume_sound token 20 store

consume_once_example :
    (consume token 21 (on_disk (record store { pending = [] }))).0 ≡ err unknown_or_expired
consume_once_example =
    consume_once token 20 21 store (on_disk (record store { pending = [] })) consumed_once

abbrev digest : Bytes → Bytes
digest b = b

abbrev sixteen : Bytes
sixteen = replicate 16 0xab
