-- ===== src/Queue/Examples.antt =====
-- Two items for two peers, of which one answers.
use cerclbackup.Prelude.{
  ℕ, ◌≡◌, refl, Bool, true, List, [], ◌∷◌, ◌++◌, ◌==◌, nat_eq, list_beq, list_eq, Text, text, All,
  ok,
}
use cerclbackup.Files.Decimal.{pos}
use cerclbackup.Queue.{PendingItem, items, Queue, enqueue, flush_to_peer}
use cerclbackup.Queue.Delivery.{undisturbed, Delivered, flush_to_peer_sound}
use cerclbackup.Queue.LostUpdate.{flush_to_peer_loses}
use mathlib.Core.List.{Perm}

abbrev item : Text → ℕ → PendingItem
item peer index = record {
  peer_id = peer;
  push = record {
    owner_id = text "me";
    file_id = text "f";
    shard_index = pos index;
    is_parity = index == 2;
    bytes = 1 ∷ [];
  };
}

abbrev queued : List PendingItem
queued = item (text "a") 0 ∷ item (text "b") 1 ∷ item (text "a") 2 ∷ []

-- The buddy takes shard 2, the parity shard, and refuses the others.
abbrev takes_two : PendingItem → Bool
takes_two i = i.push.is_parity

abbrev disk : Queue
disk = record { file = items queued; writable = true }

flushed : flush_to_peer takes_two (text "a") undisturbed disk ≡ (
  record { file = items (item (text "a") 0 ∷ item (text "b") 1 ∷ []); writable = true },
  item (text "a") 2 ∷ [],
)
unfolding flush_to_peer list_beq
flushed = refl

flush_to_peer_sound_example :
    (left sent : List PendingItem) × (flush_to_peer takes_two (text "a") undisturbed disk
      ≡ (record { file = items left; writable = true }, sent))
    × Perm (left ++ sent) queued
    × All (Delivered takes_two (text "a")) sent
    × All (λ (i : PendingItem). Delivered takes_two (text "a") i → ⊥) left
flush_to_peer_sound_example = flush_to_peer_sound takes_two (text "a") queued

flush_to_peer_loses_example :
    ((enqueue (item (text "c") 5) disk).0 ≡ ok tt)
    × (flush_to_peer takes_two (text "a") (λ q. (enqueue (item (text "c") 5) q).1) disk
        ≡ flush_to_peer takes_two (text "a") (λ q. q) disk)
flush_to_peer_loses_example =
    flush_to_peer_loses takes_two (text "a") queued (item (text "c") 5)
      (λ q. (enqueue (item (text "c") 5) q).1) refl
