-- ===== src/BuddyPush/Outcomes.antt =====
-- What becomes of a file's shards: queued for the buddies that cannot be reached.
use cerclbackup.Prelude.{
  ℕ, ◌+◌, ◌≤◌, ◌≡◌, refl, sym, ap, ◌∙◌, subst, ◌⊎◌, inl, inr, true, false, List, [], ◌∷◌, ◌++◌,
  append-nil, append_assoc, arith, Bool-cases, Bytes, Text, length, In, Result, ok, err,
  Result-cases,
}
use cerclbackup.Files.{Tree}
use cerclbackup.Files.Decimal.{pos}
use cerclbackup.Protocol.{ShardLocation}
use cerclbackup.Storage.{StorageError, store_get}
use cerclbackup.Backup.{Tools}
use cerclbackup.Handlers.{ShardPush}
use cerclbackup.Registry.{Entry}
use cerclbackup.Queue.{PendingItem, items, save_locked, load_locked, enqueue}
use cerclbackup.Sender.{SendError, ShardForms, push_shard}
use cerclbackup.BuddyPush.{
  Reachability, shard_message, messages, enqueue_all, push_all, is_connected, deliver,
}

abbrev items_for : Text → List ShardPush → List PendingItem
items_for peer [] = []
items_for peer (m ∷ more) = record { peer_id = peer; push = m } ∷ items_for peer more

-- A shard of the location that waits for a buddy.
abbrev pub pending : Text → Text → Text → ShardLocation → Bytes → PendingItem
pending owner file peer loc blob = record {
  peer_id = peer;
  push = record {
    owner_id = owner;
    file_id = file;
    shard_index = pos loc.shard_index;
    is_parity = loc.is_parity;
    bytes = blob;
  };
}

module _ (tools : Tools) (j : ShardForms) (net : Reachability) (owner file : Text) (t : Tree) where
  enqueue_all_lem :
      (peer : Text) (ms : List ShardPush) (d : List PendingItem)
      → enqueue_all tools j net owner file t peer ms (record { file = items d; writable = true })
        ≡ record { file = items (d ++ items_for peer ms); writable = true }
  unfolding enqueue_all enqueue load_locked save_locked
  enqueue_all_lem peer [] d =
      ap (λ (x : List PendingItem). record { file = items x; writable = true }) (sym (append-nil d))
  enqueue_all_lem peer (m ∷ more) d =
      let one : PendingItem = record { peer_id = peer; push = m } in
      enqueue_all_lem peer more (d ++ (one ∷ []))
      ∙ ap (λ (x : List PendingItem). record { file = items x; writable = true })
          (append_assoc d (one ∷ []) (items_for peer more))

  abbrev got : ShardLocation → Result StorageError Bytes
  got loc = store_get tools.root tools.marshal tools.unmarshal t file (pos loc.shard_index)

  abbrev sent : List ShardLocation → List ShardPush
  sent = messages tools j net owner file t

  sent_ok :
      (x : ShardLocation) (locs : List ShardLocation) (b : Bytes)
      → got x ≡ ok b
      → sent (x ∷ locs) ≡ (pending owner file [] x b).push ∷ sent locs
  unfolding messages shard_message
  sent_ok x locs b e = rw (messages, e) refl

  sent_err :
      (x : ShardLocation) (locs : List ShardLocation) (y : StorageError)
      → got x ≡ err y
      → sent (x ∷ locs) ≡ sent locs
  unfolding messages
  sent_err x locs y e = rw (messages, e) refl

  sent-In :
      (peer : Text) (loc : ShardLocation) (locs : List ShardLocation) (blob : Bytes)
      → In loc locs
      → got loc ≡ ok blob
      → In (pending owner file peer loc blob) (items_for peer (sent locs))
  sent-In peer loc [] blob h g = absurd h
  sent-In peer loc (x ∷ locs) blob (inl h) g =
      let here : got x ≡ ok blob = subst (λ (l : ShardLocation). got l ≡ ok blob) h g in
      rw (sent_ok x locs blob here)
        (inl (ap (λ (l : ShardLocation). pending owner file peer l blob) h))
  sent-In peer loc (x ∷ locs) blob (inr h) g =
      let rest = sent-In peer loc locs blob h g in
      elim (Result-cases (got x)) [
        | inl (b, e) ↦ rw (sent_ok x locs b e) (inr rest)
        | inr (y, e) ↦ rw (sent_err x locs y e) rest
      ]

  In-sent :
      (peer : Text) (item : PendingItem) (locs : List ShardLocation)
      → In item (items_for peer (sent locs))
      → (loc : ShardLocation) × (blob : Bytes) × In loc locs
        × (got loc ≡ ok blob)
        × (item ≡ pending owner file peer loc blob)
  unfolding messages
  In-sent peer item [] h = absurd h
  In-sent peer item (x ∷ locs) h = elim (Result-cases (got x)) [
    | inl (b, e) ↦ elim (rw (sent_ok x locs b e) at h) [
      | inl q ↦ (x, b, inl refl, e, q)
      | inr i ↦ let (loc, blob, k, g, q) = In-sent peer item locs i in (loc, blob, inr k, g, q)
    ]
    | inr (y, e) ↦
        let (loc, blob, k, g, q) = In-sent peer item locs (rw (sent_err x locs y e) at h) in
        (loc, blob, inr k, g, q)
  ]

  abbrev answer : Text → ShardPush → Result SendError (Unit {0})
  answer peer m = push_shard j (net.link peer m) m

  push_all_cons :
      (peer : Text) (m : ShardPush) (more : List ShardPush)
      → ((answer peer m ≡ ok tt)
          × (push_all tools j net owner file t peer (m ∷ more)
              ≡ push_all tools j net owner file t peer more + 1))
        ⊎ (push_all tools j net owner file t peer (m ∷ more)
            ≡ push_all tools j net owner file t peer more)
  unfolding push_all
  push_all_cons peer m more = elim (Result-cases (answer peer m)) [
    | inl (tt, e) ↦ inl (e, rw (push_all, e) refl)
    | inr (x, e) ↦ inr (rw (push_all, e) refl)
  ]

  abbrev count : Text → List ShardLocation → ℕ
  count peer locs = push_all tools j net owner file t peer (sent locs)

  -- What one more location adds to the count.
  count_cons :
      (peer : Text) (x : ShardLocation) (locs : List ShardLocation)
      → ((b : Bytes) × (got x ≡ ok b)
          × (answer peer (pending owner file peer x b).push ≡ ok tt)
          × (count peer (x ∷ locs) ≡ count peer locs + 1))
        ⊎ (count peer (x ∷ locs) ≡ count peer locs)
  count_cons peer x locs = elim (Result-cases (got x)) [
    | inr (y, e) ↦ inr (ap (push_all tools j net owner file t peer) (sent_err x locs y e))
    | inl (b, e) ↦
        let m : ShardPush = (pending owner file peer x b).push in
        let q = ap (push_all tools j net owner file t peer) (sent_ok x locs b e) in
        elim (push_all_cons peer m (sent locs)) [
          | inl (taken, r) ↦ inl (b, e, taken, q ∙ r)
          | inr r ↦ inr (q ∙ r)
        ]
  ]

  push_all-bound : (peer : Text) (locs : List ShardLocation) → count peer locs ≤ length locs
  unfolding messages push_all
  push_all-bound peer [] = omega arith
  push_all-bound peer (x ∷ locs) =
      let rest = push_all-bound peer locs in
      elim (count_cons peer x locs) [
        | inr q ↦ omega (arith, rest, q)
        | inl (b, e, taken, q) ↦ omega (arith, rest, q)
      ]

  -- A full count means that each shard was in the store and acknowledged.
  push_all_full :
      (peer : Text) (loc : ShardLocation) (locs : List ShardLocation)
      → count peer locs ≡ length locs
      → In loc locs
      → (blob : Bytes) × (got loc ≡ ok blob)
        × (answer peer (pending owner file peer loc blob).push ≡ ok tt)
  push_all_full peer loc [] full h = absurd h
  push_all_full peer loc (x ∷ locs) full h =
      let bound = push_all-bound peer locs in
      elim (count_cons peer x locs) [
        | inr q ↦ absurd (omega (arith, bound, q, full))
        | inl (b, e, taken, q) ↦ elim h [
          | inl here ↦ (b, rw here e, rw here taken)
          | inr there ↦ push_all_full peer loc locs (omega (arith, q, full)) there
        ]
      ]

  -- For a buddy with a valid peer id, over a queue file that can be read and written. If the buddy
  -- cannot be reached, the queue is what it was with new items behind it, and these are: for each
  -- location whose shard the store gives, that shard for that buddy, with the owner, the file, and
  -- the index and the parity mark of the location, and nothing else. If it can be reached, the queue
  -- stays as it was, however many of the pushes fail, and the number of shards that it took is at most
  -- that of the locations, and equal to it only if the store gave the shard of each and the buddy
  -- acknowledged it.
  pub deliver_lem :
      (locs : List ShardLocation) (e : Entry) (d : List PendingItem)
      → net.decodes e.peer_id ≡ true
      → let (q, pushed) =
          deliver tools j net owner file t locs e (record { file = items d; writable = true }) in
        ((is_connected tools j net owner file t e ≡ false)
          × ((new : List PendingItem) × (q ≡ record { file = items (d ++ new); writable = true })
              × ((loc : ShardLocation) (blob : Bytes)
                  → In loc locs
                  → got loc ≡ ok blob
                  → In (pending owner file e.peer_id loc blob) new)
              × ((item : PendingItem)
                  → In item new
                  → (loc : ShardLocation) × (blob : Bytes) × In loc locs
                    × (got loc ≡ ok blob)
                    × (item ≡ pending owner file e.peer_id loc blob))))
        ⊎ ((is_connected tools j net owner file t e ≡ true)
            × (q ≡ record { file = items d; writable = true })
            × (pushed ≤ length locs)
            × (pushed ≡ length locs
                → (loc : ShardLocation) → In loc locs
                → (blob : Bytes) × (got loc ≡ ok blob)
                  × (answer e.peer_id (pending owner file e.peer_id loc blob).push ≡ ok tt)))
  unfolding deliver
  deliver_lem locs e d known = elim (Bool-cases (is_connected tools j net owner file t e)) [
    | inr away ↦ inl (
      away,
      (
        items_for e.peer_id (sent locs),
        rw (deliver, known, away) (enqueue_all_lem e.peer_id (sent locs) d),
        λ loc blob i g. sent-In e.peer_id loc locs blob i g,
        λ item i. In-sent e.peer_id item locs i,
      ),
    )
    | inl near ↦
        let counted : (deliver tools j net owner file t locs e
              (record { file = items d; writable = true })).1
            ≡ count e.peer_id locs =
          rw (deliver, known, near) refl in
        inr (
          near,
          rw (deliver, known, near) refl,
          rw counted (push_all-bound e.peer_id locs),
          λ full loc i. push_all_full e.peer_id loc locs (sym counted ∙ full) i,
        )
  ]
