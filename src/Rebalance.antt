-- ===== src/Rebalance.antt =====
-- internal/rebalance/rebalance.go: every local shard pushed to every buddy.
pub mod Counts
pub mod Skipped
pub mod Examples
use cerclbackup.Prelude.{
  ℕ, ◌+◌, Bool, not, List, [], ◌∷◌, ◌++◌, if◌then◌else◌, ◌==◌, nat_eq, list_eq, Text, length, ok,
  err,
}
use cerclbackup.Files.{Tree}
use cerclbackup.Files.Decimal.{ℤ}
use cerclbackup.Storage.{ShardMeta, read_meta, store_get}
use cerclbackup.Backup.{Tools}
use cerclbackup.Handlers.{ShardPush}
use cerclbackup.Registry.{Entry}
use cerclbackup.Sender.{Link, ShardForms, push_shard}

-- An entry of Errors.
pub data RebalanceError : Type 0 where
  unread : Text → ℤ → RebalanceError
  unconnected : Text → RebalanceError
  unpushed : Text → ℤ → Text → RebalanceError

pub record RebalanceResult : Type 0 where
  pub files_processed : ℕ
  pub shards_attempted : ℕ
  pub shards_ok : ℕ
  pub errors : List RebalanceError

-- The buddies whose peer id can be decoded.
unfoldable pub reachable : (Text → Bool) → List Entry → List Text
reachable decodes [] = []
reachable decodes (e ∷ es) =
    let rest = reachable decodes es in if decodes e.peer_id then e.peer_id ∷ rest else rest

-- `connects` tells whether the peer is connected, or is by Connect; `link` is the stream for a push.
module _ (tools : Tools) (j : ShardForms) (connects : Text → Bool) (link : Text → ShardPush → Link)
    (owner : Text) (t : Tree) where
  -- One shard to one buddy.
  unfoldable pub push_one : ShardPush → Text → RebalanceResult → RebalanceResult
  push_one m peer r =
      if not (connects peer)
      then record r {
        shards_attempted = r.shards_attempted + 1;
        errors = r.errors ++ (unconnected peer ∷ []);
      }
      else elim (push_shard j (link peer m) m) [
        | err x ↦ record r {
          shards_attempted = r.shards_attempted + 1;
          errors = r.errors ++ (unpushed m.file_id m.shard_index peer ∷ []);
        }
        | ok u ↦ record r { shards_attempted = r.shards_attempted + 1; shards_ok = r.shards_ok + 1 }
      ]

  unfoldable pub push_to_peers : ShardPush → List Text → RebalanceResult → RebalanceResult
  unfolding push_one
  push_to_peers m [] r = r
  push_to_peers m (p ∷ peers) r = push_to_peers m peers (push_one m p r)

  -- The loop over the metadata of one file.
  unfoldable pub push_metas : Text → List Text → List ShardMeta → RebalanceResult → RebalanceResult
  unfolding push_to_peers
  push_metas file peers [] r = r
  push_metas file peers (m ∷ metas) r =
      push_metas file peers metas
        (elim (store_get tools.root tools.marshal tools.unmarshal t file m.shard_index) [
          | err x ↦ record r { errors = r.errors ++ (unread file m.shard_index ∷ []) }
          | ok blob ↦
              push_to_peers
                (record {
                  owner_id = owner;
                  file_id = file;
                  shard_index = m.shard_index;
                  is_parity = m.is_parity;
                  bytes = blob;
                })
                peers r
        ])

  -- One file: without metadata it is skipped.
  unfoldable pub push_file : List Text → Text → RebalanceResult → RebalanceResult
  unfolding push_metas
  push_file peers file r = elim (read_meta tools.root tools.marshal tools.unmarshal t file) [
    | err x ↦ r
    | ok metas ↦
        if length metas == 0
        then r
        else push_metas file peers metas (record r { files_processed = r.files_processed + 1 })
  ]

  unfoldable pub push_files : List Text → List Text → RebalanceResult → RebalanceResult
  unfolding push_file
  push_files peers [] r = r
  push_files peers (f ∷ files) r = push_files peers files (push_file peers f r)

  -- Run, for the files that it comes to before its context is cancelled.
  unfoldable pub run : (Text → Bool) → List Entry → List Text → RebalanceResult
  unfolding push_files reachable
  run decodes buddies files =
      let nothing : RebalanceResult = record {
        files_processed = 0;
        shards_attempted = 0;
        shards_ok = 0;
        errors = [];
      } in
      if length buddies == 0 then nothing else push_files (reachable decodes buddies) files nothing
