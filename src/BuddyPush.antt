-- ===== src/BuddyPush.antt =====
-- internal/api/backup.go: pushToBuddies, once the host, the registry and the queue are open.
pub mod Outcomes
pub mod Examples
use cerclbackup.Prelude.{
  ℕ, ◌+◌, Bool, not, ◌&&◌, List, [], ◌∷◌, if◌then◌else◌, ◌==◌, nat_eq, list_eq, Bytes, Text, length,
  ok, err,
}
use cerclbackup.Files.{Tree}
use cerclbackup.Files.Decimal.{pos}
use cerclbackup.Protocol.{ShardLocation}
use cerclbackup.Storage.{store_get}
use cerclbackup.Backup.{Tools}
use cerclbackup.Handlers.{ShardPush}
use cerclbackup.Registry.{Entry}
use cerclbackup.Queue.{Queue, enqueue}
use cerclbackup.Sender.{Link, ShardForms, push_shard}

-- What the network answers: which peer ids and addresses can be parsed, which peers can be reached
-- at some addresses, and the stream for a push.
pub record Reachability : Type 0 where
  pub decodes : Text → Bool
  pub parses : Text → Bool
  pub connects : Text → List Text → Bool
  pub link : Text → ShardPush → Link

unfoldable pub parsed_addrs : Reachability → List Text → List Text
parsed_addrs net [] = []
parsed_addrs net (a ∷ addrs) =
    let rest = parsed_addrs net addrs in if net.parses a then a ∷ rest else rest

-- The message for a shard.
unfoldable pub shard_message : Text → Text → ShardLocation → Bytes → ShardPush
shard_message owner file loc blob = record {
  owner_id = owner;
  file_id = file;
  shard_index = pos loc.shard_index;
  is_parity = loc.is_parity;
  bytes = blob;
}

-- `owner` is the own peer id, `file` the file's name in the store.
module _ (tools : Tools) (j : ShardForms) (net : Reachability) (owner file : Text) (t : Tree) where
  -- The messages for the shards that the store gives; the others are skipped.
  unfoldable pub messages : List ShardLocation → List ShardPush
  unfolding shard_message
  messages [] = []
  messages (loc ∷ locs) =
      let rest = messages locs in
      elim (store_get tools.root tools.marshal tools.unmarshal t file (pos loc.shard_index)) [
        | err x ↦ rest
        | ok blob ↦ shard_message owner file loc blob ∷ rest
      ]

  -- The loop for a buddy that cannot be reached: an Enqueue that fails is ignored.
  unfoldable pub enqueue_all : Text → List ShardPush → Queue → Queue
  enqueue_all peer [] q = q
  enqueue_all peer (m ∷ more) q =
      enqueue_all peer more (enqueue (record { peer_id = peer; push = m }) q).1

  -- The loop for a buddy that is connected: how many shards it took.
  unfoldable pub push_all : Text → List ShardPush → ℕ
  push_all peer [] = 0
  push_all peer (m ∷ more) =
      let rest = push_all peer more in
      elim (push_shard j (net.link peer m) m) [ err x ↦ rest | ok u ↦ rest + 1 ]

  -- Whether the buddy can be reached: not without an address that can be parsed.
  unfoldable pub is_connected : Entry → Bool
  unfolding parsed_addrs
  is_connected e =
      let addrs = parsed_addrs net e.addrs in
      not (length addrs == 0) && net.connects e.peer_id addrs

  -- One buddy: the queue from then on, and the number of shards that it took.
  unfoldable pub deliver : List ShardLocation → Entry → Queue → Queue × ℕ
  unfolding messages enqueue_all push_all is_connected
  deliver locs e q =
      if not (net.decodes e.peer_id)
      then (q, 0)
      else if not (is_connected e)
      then (enqueue_all e.peer_id (messages locs) q, 0)
      else (q, push_all e.peer_id (messages locs))

  -- pushToBuddies
  unfoldable pub push_to_buddies : List ShardLocation → List Entry → Queue → Queue
  unfolding deliver
  push_to_buddies locs [] q = q
  push_to_buddies locs (e ∷ buddies) q = push_to_buddies locs buddies (deliver locs e q).0
