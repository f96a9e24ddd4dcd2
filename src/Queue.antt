-- ===== src/Queue.antt =====
-- internal/p2p/queue.go: shards for buddies that are offline, on disk, with the two moments at
-- which FlushToPeer holds the lock.
pub mod Delivery
pub mod LostUpdate
pub mod Examples
use cerclbackup.Prelude.{
  Bool, not, List, [], ◌∷◌, ◌++◌, if◌then◌else◌, ◌==◌, nat_eq, list_eq, Text, Result, ok, err,
}
use cerclbackup.Handlers.{ShardPush}

pub record PendingItem : Type 0 where
  pub peer_id : Text
  pub push : ShardPush

-- The queue file: `broken` is one that loadLocked cannot read or parse. Where `writable` is false
-- saveLocked fails.
pub data QueueFile : Type 0 where
  broken : QueueFile
  items : List PendingItem → QueueFile

pub record Queue : Type 0 where
  pub file : QueueFile
  pub writable : Bool

pub data QueueError : Type 0 where
  load_failed save_failed : QueueError

-- saveLocked
unfoldable pub save_locked : List PendingItem → Queue → Result QueueError (Unit {0}) × Queue
save_locked d q = if q.writable then (ok tt, record q { file = items d }) else (err save_failed, q)

-- loadLocked: a file that is not there holds no items.
unfoldable pub load_locked : Queue → Result QueueError (List PendingItem)
load_locked q = elim q.file [ broken ↦ err load_failed | items d ↦ ok d ]

-- Enqueue of the item {peerID, push}, which holds the lock throughout.
unfoldable pub enqueue : PendingItem → Queue → Result QueueError (Unit {0}) × Queue
unfolding save_locked load_locked
enqueue item q = elim (load_locked q) [
  | err x ↦ (err x, q)
  | ok d ↦ save_locked (d ++ (item ∷ [])) q
]

-- `push` is PushShard to the peer: whether the buddy acknowledged the shard.
module _ (push : PendingItem → Bool) (peer : Text) where
  -- The loop of FlushToPeer: what remains, and what was sent, in order.
  unfoldable pub flush_loop : List PendingItem → List PendingItem × List PendingItem
  flush_loop [] = ([], [])
  flush_loop (item ∷ d) =
      let (remaining, sent) = flush_loop d in
      if not (item.peer_id == peer)
      then (item ∷ remaining, sent)
      else if push item
      then (remaining, item ∷ sent)
      else (item ∷ remaining, sent)

  -- FlushToPeer lets the lock go after it has loaded: `meanwhile` is what others do to the queue
  -- before it takes the lock again. The result is the queue and the items that were delivered.
  unfoldable pub flush_to_peer : (Queue → Queue) → Queue → Queue × List PendingItem
  unfolding flush_loop save_locked load_locked
  flush_to_peer meanwhile q = elim (load_locked q) [
    | err x ↦ (meanwhile q, [])
    | ok d ↦ ((save_locked (flush_loop d).0 (meanwhile q)).1, (flush_loop d).1)
  ]
