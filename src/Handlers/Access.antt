-- ===== src/Handlers/Access.antt =====
-- What peers can read and write in the store of a node.
use cerclbackup.BuddyStore.{get as get_shard}
use cerclbackup.Prelude.{
  ◌≡◌, refl, sym, ap, ◌∙◌, subst, ◌⊎◌, inl, inr, true, Option, none, some, arith, Bool-cases, ◌==◌,
  beq_iff, beq_refl, nat_eq, list_eq, Bytes, Text, lookup, Result, ok, err, Result-cases,
}
use cerclbackup.Files.{FilePath, Tree}
use cerclbackup.BuddyStore.{StoreError, put_manifest, put_with_hash}
use cerclbackup.BuddyStore.Confined.{Outside, put_with_hash_confined}
use cerclbackup.BuddyStore.Integrity.{verify-put_with_hash}
use cerclbackup.BuddyStore.Blobs.{put_manifest_sound}
use cerclbackup.Wire.{WireError}
use cerclbackup.Handlers.{
  Node, Host, check_buddy_auth, not_found, shard_response, serve_pull, handle_pull, stored_ack,
  take_push, handle_shard, take_manifest, Envelope, manifest_push, manifest_request, unknown_type,
  dispatch, take_manifest_message, handle_manifest, ShardPush, ShardRequest, ShardResponse,
  accepted, ManifestPush,
}
use cerclbackup.Handlers.Auth.{check_buddy_auth_lem}

stored_ack_tree : (p : Result StoreError (Unit {0}) × Tree) → (stored_ack p).1 ≡ p.1
unfolding stored_ack
stored_ack_tree (err x, t) = refl
stored_ack_tree (ok u, t) = refl

take_push-Outside :
    (h : Host) (peer : Text) (t : Tree) (push : Result WireError ShardPush) (q : FilePath)
    → Outside h.root peer q
    → lookup q (take_push h peer t push).1.files ≡ lookup q t.files
unfolding take_push
take_push-Outside h peer t (err x) q out = refl
take_push-Outside h peer t (ok push) q out = elim (Bool-cases (push.owner_id == peer)) [
  | inr n ↦ rw n
  | inl e ↦
      let own : push.owner_id ≡ peer = (beq_iff push.owner_id peer).0 e in
      let kept =
        put_with_hash_confined h.root h.sha256 t push.owner_id push.file_id push.shard_index
          push.bytes q (subst (λ (o : Text). Outside h.root o q) (sym own) out) in
      rw
        (
          e,
          stored_ack_tree (
              put_with_hash h.root h.sha256 t push.owner_id push.file_id push.shard_index
                push.bytes),
        )
        kept
]

take_manifest-Outside :
    (h : Host) (peer : Text) (t : Tree) (push : Option ManifestPush) (q : FilePath)
    → Outside h.root peer q
    → lookup q (take_manifest h peer t push).1.files ≡ lookup q t.files
unfolding take_manifest
take_manifest-Outside h peer t none q out = refl
take_manifest-Outside h peer t (some push) q out = elim (Bool-cases (push.owner_id == peer)) [
  | inr n ↦ rw n
  | inl e ↦
      let own : push.owner_id ≡ peer = (beq_iff push.owner_id peer).0 e in
      elim (Result-cases (put_manifest h.root t push.owner_id push.bytes)) [
        | inr (x, p) ↦ rw (e, p)
        | inl (t', p) ↦
            rw (e, p)
              ((put_manifest_sound h.root t t' push.owner_id push.bytes p).0 q
                (subst (λ (o : Text). Outside h.root o q) (sym own) out))
      ]
]

dispatch-Outside :
    (h : Host) (peer : Text) (t : Tree) (e : Option Envelope) (q : FilePath)
    → Outside h.root peer q
    → lookup q (dispatch h peer t e).1.files ≡ lookup q t.files
unfolding dispatch
dispatch-Outside h peer t none q out = refl
dispatch-Outside h peer t (some (manifest_push push)) q out =
    take_manifest-Outside h peer t push q out
dispatch-Outside h peer t (some (manifest_request owner)) q out = refl
dispatch-Outside h peer t (some unknown_type) q out = refl

take_manifest_message-Outside :
    (envelope : Bytes → Option Envelope) (h : Host) (peer : Text) (t : Tree)
    (raw : Result WireError Bytes) (q : FilePath)
    → Outside h.root peer q
    → lookup q (take_manifest_message envelope h peer t raw).1.files ≡ lookup q t.files
unfolding take_manifest_message
take_manifest_message-Outside envelope h peer t (err x) q out = refl
take_manifest_message-Outside envelope h peer t (ok raw) q out =
    dispatch-Outside h peer t (envelope raw) q out

-- Whatever a peer sends, authenticated or not, on the protocols for pushes, pulls and manifests:
-- every file outside <root>/remote/<peer> stays as it was.
pub handlers_confined :
    (h : Host) (peer : Text) (node : Node) (envelope : Bytes → Option Envelope)
    (push : Result WireError ShardPush) (pull : Result WireError ShardRequest)
    (raw : Result WireError Bytes) (q : FilePath)
    → Outside h.root peer q
    → (lookup q (handle_shard h peer push node).1.tree.files ≡ lookup q node.tree.files)
      × (lookup q (handle_pull h peer pull node).1.tree.files ≡ lookup q node.tree.files)
      × (lookup q (handle_manifest envelope h peer raw node).1.tree.files
          ≡ lookup q node.tree.files)
unfolding handle_shard handle_pull handle_manifest
handlers_confined h peer node envelope push pull raw q out =
    elim (Bool-cases (check_buddy_auth h peer node.registry).0) [
      | inr n ↦ (rw n, refl, rw n)
      | inl y ↦ (
        rw y (take_push-Outside h peer node.tree push q out),
        refl,
        rw y (take_manifest_message-Outside envelope h peer node.tree raw q out),
      )
    ]

-- A pull that is answered with a shard: the peer has passed checkBuddyAuth, the owner that it named
-- is itself or this node, and the bytes are those that the store returns for that owner.
pub handle_pull_sound :
    (h : Host) (peer : Text) (node : Node) (req : ShardRequest) (reply : ShardResponse)
    → (handle_pull h peer (ok req) node).0 ≡ some reply
    → reply.found ≡ true
    → ((check_buddy_auth h peer node.registry).0 ≡ true)
      × ((req.owner_id ≡ peer) ⊎ (req.owner_id ≡ h.id))
      × (get_shard h.root node.tree req.owner_id req.file_id req.shard_index ≡ ok reply.bytes)
unfolding handle_pull serve_pull not_found shard_response
handle_pull_sound h peer node req reply r found =
    elim (Bool-cases (check_buddy_auth h peer node.registry).0) [
      | inr n ↦ absurd (ground (arith, n))
      | inl y ↦
          elim (Result-cases
            (get_shard h.root node.tree req.owner_id req.file_id req.shard_index)) [
              | inr (x, g) ↦ absurd (ground (arith, y, g))
              | inl (b, g) ↦ elim (Bool-cases (req.owner_id == peer)) [
                | inl o ↦ (y, inl ((beq_iff req.owner_id peer).0 o), ground (arith, y, g, o))
                | inr o ↦ elim (Bool-cases (req.owner_id == h.id)) [
                  | inl m ↦ (y, inr ((beq_iff req.owner_id h.id).0 m), ground (arith, y, g, o, m))
                  | inr m ↦ absurd (ground (arith, y, g, o, m))
                ]
              ]
            ]
    ]

stored_ack_accepted :
    (p : Result StoreError (Unit {0}) × Tree) → (stored_ack p).0 ≡ some accepted → p ≡ (ok tt, p.1)
unfolding stored_ack
stored_ack_accepted (err x, t) h = absurd (ground (arith, h))
stored_ack_accepted (ok tt, t) h = refl

-- What an acknowledged push says of its parts.
accepted_push :
    (h : Host) (peer : Text) (node : Node) (push : ShardPush)
    → (handle_shard h peer (ok push) node).0 ≡ some accepted
    → ((check_buddy_auth h peer node.registry).0 ≡ true)
      × (push.owner_id ≡ peer)
      × (put_with_hash h.root h.sha256 node.tree push.owner_id push.file_id push.shard_index
            push.bytes
          ≡ (ok tt, (handle_shard h peer (ok push) node).1.tree))
unfolding handle_shard take_push
accepted_push h peer node push a =
    let p : Result StoreError (Unit {0}) × Tree =
      put_with_hash h.root h.sha256 node.tree push.owner_id push.file_id push.shard_index
        push.bytes in
    elim (Bool-cases (check_buddy_auth h peer node.registry).0) [
      | inr n ↦ absurd (ground (arith, n))
      | inl y ↦ elim (Bool-cases (push.owner_id == peer)) [
        | inr n ↦ absurd (ground (arith, y, n))
        | inl o ↦
            let ack : (stored_ack p).0 ≡ some accepted = ground (arith, y, o, a) in
            (
              y,
              (beq_iff push.owner_id peer).0 o,
              stored_ack_accepted p ack
                  ∙ rw (y, o) (ap (λ (t : Tree). (ok tt, t)) (sym (stored_ack_tree p))),
            )
      ]
    ]

-- A push that was acknowledged can be pulled: the same peer, asking the node that the push left for
-- the shard with that file and index, is answered with the bytes that it pushed.
pub handle_pull-handle_shard :
    (h : Host) (peer : Text) (node : Node) (push : ShardPush)
    → (handle_shard h peer (ok push) node).0 ≡ some accepted
    → (handle_pull h peer
        (ok (record { owner_id = peer; file_id = push.file_id; shard_index = push.shard_index }))
        (handle_shard h peer (ok push) node).1).0
      ≡ some (record {
        file_id = push.file_id;
        shard_index = push.shard_index;
        bytes = push.bytes;
        found = true;
      })
unfolding handle_pull serve_pull shard_response
handle_pull-handle_shard h peer node push a =
    let (y, own, p) = accepted_push h peer node push a in
    let after : Node = (handle_shard h peer (ok push) node).1 in
    let still : (check_buddy_auth h peer after.registry).0 ≡ true =
      unfold handle_shard in ((check_buddy_auth_lem h peer node.registry).1 ∙ y) in
    let got =
      (verify-put_with_hash h.root h.sha256 node.tree after.tree push.owner_id push.file_id
        push.shard_index push.bytes p).0 in
    let mine : get_shard h.root after.tree peer push.file_id push.shard_index ≡ ok push.bytes =
      ap (λ (o : Text). get_shard h.root after.tree o push.file_id push.shard_index) (sym own)
      ∙ got in
    rw (still, beq_refl peer, mine)
