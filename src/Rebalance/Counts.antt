-- ===== src/Rebalance/Counts.antt =====
-- How the counters of a rebalance stand to each other.
use cerclbackup.Prelude.{
  ℕ, ◌+◌, ◌≡◌, refl, inl, inr, Bool, List, [], ◌∷◌, ◌++◌, arith, Bool-cases, ◌==◌, nat_eq, list_eq,
  Text, length, length-append, Result-cases,
}
use cerclbackup.Files.{Tree}
use cerclbackup.Storage.{ShardMeta, read_meta, store_get}
use cerclbackup.Backup.{Tools}
use cerclbackup.Handlers.{ShardPush}
use cerclbackup.Registry.{Entry}
use cerclbackup.Sender.{Link, ShardForms, push_shard}
use cerclbackup.Rebalance.{
  RebalanceError, unread, unconnected, unpushed, RebalanceResult, reachable, push_one,
  push_to_peers, push_metas, push_file, push_files, run,
}

-- The errors that are no attempts.
abbrev pub unread_count : List RebalanceError → ℕ
unread_count [] = 0
unread_count (unread f i ∷ errors) = unread_count errors + 1
unread_count (unconnected p ∷ errors) = unread_count errors
unread_count (unpushed f i p ∷ errors) = unread_count errors

unread_count-append :
    (xs ys : List RebalanceError) → unread_count (xs ++ ys) ≡ unread_count xs + unread_count ys
unread_count-append [] ys = omega arith
unread_count-append (unread f i ∷ xs) ys = omega (arith, unread_count-append xs ys)
unread_count-append (unconnected p ∷ xs) ys = unread_count-append xs ys
unread_count-append (unpushed f i p ∷ xs) ys = unread_count-append xs ys

-- Every attempt succeeded or is an error, and every other error is a shard that could not be read.
abbrev IsBalanced : RebalanceResult → Type 0
IsBalanced r = r.shards_attempted + unread_count r.errors ≡ r.shards_ok + length r.errors

module _ (tools : Tools) (j : ShardForms) (connects : Text → Bool) (link : Text → ShardPush → Link)
    (owner : Text) (t : Tree) where
  push_one-IsBalanced :
      (m : ShardPush) (peer : Text) (r : RebalanceResult)
      → IsBalanced r
      → IsBalanced (push_one tools j connects link owner t m peer r)
  unfolding push_one
  push_one-IsBalanced m peer r h = elim (Bool-cases (connects peer)) [
    | inr away ↦ rw away (
        omega (
          arith,
          h,
          unread_count-append r.errors (unconnected peer ∷ []),
          length-append r.errors (unconnected peer ∷ []),
        ))
    | inl near ↦ elim (Result-cases (push_shard j (link peer m) m)) [
      | inl (u, p) ↦ rw (near, p) (omega (arith, h))
      | inr (x, p) ↦
          let e : RebalanceError = unpushed m.file_id m.shard_index peer in
          rw (near, p)
            (omega
              (arith, h, unread_count-append r.errors (e ∷ []), length-append r.errors (e ∷ [])))
    ]
  ]

  push_to_peers-IsBalanced :
      (m : ShardPush) (peers : List Text) (r : RebalanceResult)
      → IsBalanced r
      → IsBalanced (push_to_peers tools j connects link owner t m peers r)
  unfolding push_to_peers
  push_to_peers-IsBalanced m [] r h = h
  push_to_peers-IsBalanced m (p ∷ peers) r h =
      push_to_peers-IsBalanced m peers (push_one tools j connects link owner t m p r)
        (push_one-IsBalanced m p r h)

  push_metas-IsBalanced :
      (file : Text) (peers : List Text) (metas : List ShardMeta) (r : RebalanceResult)
      → IsBalanced r
      → IsBalanced (push_metas tools j connects link owner t file peers metas r)
  unfolding push_metas
  push_metas-IsBalanced file peers [] r h = h
  push_metas-IsBalanced file peers (m ∷ metas) r h =
      elim (Result-cases
        (store_get tools.root tools.marshal tools.unmarshal t file m.shard_index)) [
          | inr (x, e) ↦
              let bad : RebalanceError = unread file m.shard_index in
              rw (push_metas, e)
                (push_metas-IsBalanced file peers metas
                  (record r { errors = r.errors ++ (bad ∷ []) })
                  (omega (
                    arith,
                    h,
                    unread_count-append r.errors (bad ∷ []),
                    length-append r.errors (bad ∷ []),
                  )))
          | inl (blob, e) ↦
              let message : ShardPush = record {
                owner_id = owner;
                file_id = file;
                shard_index = m.shard_index;
                is_parity = m.is_parity;
                bytes = blob;
              } in
              rw (push_metas, e)
                (push_metas-IsBalanced file peers metas
                  (push_to_peers tools j connects link owner t message peers r)
                  (push_to_peers-IsBalanced message peers r h))
        ]

  push_files-IsBalanced :
      (peers : List Text) (files : List Text) (r : RebalanceResult)
      → IsBalanced r
      → IsBalanced (push_files tools j connects link owner t peers files r)
  unfolding push_files push_file
  push_files-IsBalanced peers [] r h = h
  push_files-IsBalanced peers (f ∷ files) r h =
      elim (Result-cases (read_meta tools.root tools.marshal tools.unmarshal t f)) [
        | inr (x, e) ↦ rw (push_files, push_file, e) (push_files-IsBalanced peers files r h)
        | inl (metas, e) ↦ elim (Bool-cases (length metas == 0)) [
          | inl none_there ↦
              rw (push_files, push_file, e, none_there) (push_files-IsBalanced peers files r h)
          | inr some_there ↦
              let counted : RebalanceResult = record r {
                files_processed = r.files_processed + 1;
              } in
              rw (push_files, push_file, e, some_there)
                (push_files-IsBalanced peers files
                  (push_metas tools j connects link owner t f peers metas counted)
                  (push_metas-IsBalanced f peers metas counted h))
        ]
      ]

  -- In the result of a run, whatever the store, the buddies and the network do: the attempts are the
  -- shards that were taken and the errors, without the errors for shards that could not be read.
  pub run-IsBalanced :
      (decodes : Text → Bool) (buddies : List Entry) (files : List Text)
      → (run tools j connects link owner t decodes buddies files).shards_attempted
          + unread_count (run tools j connects link owner t decodes buddies files).errors
        ≡ (run tools j connects link owner t decodes buddies files).shards_ok
          + length (run tools j connects link owner t decodes buddies files).errors
  unfolding run
  run-IsBalanced decodes buddies files =
      let nothing : RebalanceResult = record {
        files_processed = 0;
        shards_attempted = 0;
        shards_ok = 0;
        errors = [];
      } in
      elim (Bool-cases (length buddies == 0)) [
        | inl alone ↦ rw alone refl
        | inr some_buddy ↦
            rw some_buddy (push_files-IsBalanced (reachable decodes buddies) files nothing refl)
      ]
