-- ===== src/Queue/LostUpdate.antt =====
-- FlushToPeer writes back what it read before it let the lock go: an Enqueue that comes between is
-- lost.
use cerclbackup.Prelude.{◌≡◌, refl, Bool, true, List, Text, ok}
use cerclbackup.Queue.{PendingItem, items, Queue, enqueue, flush_to_peer}

-- Of a readable and writable queue: an Enqueue that runs while FlushToPeer is sending reports that
-- the item is stored, and yet the queue that FlushToPeer leaves, and what it delivers, are as if
-- that Enqueue had never run.
pub flush_to_peer_loses :
    (push : PendingItem → Bool) (peer : Text) (d : List PendingItem) (item : PendingItem)
    (meanwhile : Queue → Queue)
    → meanwhile (record { file = items d; writable = true })
      ≡ (enqueue item (record { file = items d; writable = true })).1
    → ((enqueue item (record { file = items d; writable = true })).0 ≡ ok tt)
      × (flush_to_peer push peer meanwhile (record { file = items d; writable = true })
          ≡ flush_to_peer push peer (λ q. q) (record { file = items d; writable = true }))
unfolding enqueue flush_to_peer
flush_to_peer_loses push peer d item meanwhile h = (refl, rw h)
