-- ===== src/Handlers.antt =====
-- internal/p2p/handler.go: what a node does with the messages of a peer. The messages are in
-- Messages.
mod Messages
pub mod Auth
pub mod Access
pub mod Joining
pub mod Examples
use cerclbackup.Registry.{get as get_entry, add as add_entry}
pub use Messages.*
use cerclbackup.Prelude.{
  ℕ, ◌*◌, Bool, true, false, not, ◌&&◌, Option, none, some, [], if◌then◌else◌, ◌==◌, nat_eq,
  list_eq, Bytes, Text, length, Result, ok, err,
}
use cerclbackup.Files.{FilePath, Tree}
use cerclbackup.Files.Decimal.{pos}
use cerclbackup.BuddyStore.{StoreError, get, put_manifest, get_manifest, put_with_hash}
use cerclbackup.Registry.{Entry, Registry, add}
use cerclbackup.Invite.{Manager, consume, consume_commitment}
use cerclbackup.Wire.{WireError}

-- The state of a node that its handlers share.
pub record Node : Type 0 where
  pub tree : Tree
  pub registry : Registry
  pub invites : Manager

-- What a node is: its id, the directory of its store, sha256, and of libp2p the parser of public
-- keys, the key that a peer id embeds, and the node's own key.
pub record Host : Type 0 where
  pub id : Text
  pub root : FilePath
  pub sha256 : Bytes → Bytes
  pub unmarshal_public_key : Bytes → Option Bytes
  pub extract_public_key : Text → Option Bytes
  pub own_public_key : Option Bytes

-- Two keys that are there, and equal.
unfoldable pub same_key : Option Bytes → Option Bytes → Bool
same_key none conn = false
same_key (some stored) none = false
same_key (some stored) (some conn) = stored == conn

-- Behind reg.Get in checkBuddyAuth.
unfoldable pub entry_matches : Host → Text → Option Entry → Bool
unfolding same_key
entry_matches h peer none = false
entry_matches h peer (some entry) =
    if length entry.pub_key == 0
    then true
    else same_key (h.unmarshal_public_key entry.pub_key) (h.extract_public_key peer)

-- checkBuddyAuth(reg, remotePeer)
unfoldable pub check_buddy_auth : Host → Text → Registry → Bool × Registry
unfolding entry_matches
check_buddy_auth h peer reg =
    let (found, reg') = get_entry peer reg in (entry_matches h peer found, reg')

unfoldable pub not_found : ShardResponse
not_found = record { file_id = []; shard_index = pos 0; bytes = []; found = false }

unfoldable pub shard_response : ShardRequest → Result StoreError Bytes → ShardResponse
shard_response req (err x) = record {
  file_id = req.file_id;
  shard_index = req.shard_index;
  bytes = [];
  found = false;
}
shard_response req (ok b) = record {
  file_id = req.file_id;
  shard_index = req.shard_index;
  bytes = b;
  found = true;
}

-- `received` is what wire.ReadMsg returned; a reply is what the handler hands to wire.WriteMsg, whose
-- errors it ignores.
unfoldable pub serve_pull :
    Host → Text → Tree → Result WireError ShardRequest → Option ShardResponse
unfolding not_found shard_response
serve_pull h peer t (err x) = none
serve_pull h peer t (ok req) =
    if not (req.owner_id == peer) && not (req.owner_id == h.id)
    then some not_found
    else some (shard_response req (get h.root t req.owner_id req.file_id req.shard_index))

-- handlePull
unfoldable pub handle_pull :
    Host → Text → Result WireError ShardRequest → Node → Option ShardResponse × Node
unfolding serve_pull check_buddy_auth
handle_pull h peer received node =
    let (known, reg) = check_buddy_auth h peer node.registry in
    (
      if known then serve_pull h peer node.tree received else some not_found,
      record node { registry = reg },
    )

unfoldable pub stored_ack : Result StoreError (Unit {0}) × Tree → Option Ack × Tree
stored_ack (err x, t) = (some (rejected (store_failed x)), t)
stored_ack (ok u, t) = (some accepted, t)

unfoldable pub take_push : Host → Text → Tree → Result WireError ShardPush → Option Ack × Tree
unfolding stored_ack
take_push h peer t (err x) = (none, t)
take_push h peer t (ok push) =
    if not (push.owner_id == peer)
    then (some (rejected owner_mismatch), t)
    else stored_ack
        (put_with_hash h.root h.sha256 t push.owner_id push.file_id push.shard_index push.bytes)

-- handleShard
unfoldable pub handle_shard : Host → Text → Result WireError ShardPush → Node → Option Ack × Node
unfolding take_push check_buddy_auth
handle_shard h peer received node =
    let (known, reg) = check_buddy_auth h peer node.registry in
    let (ack, t) =
      if known
      then take_push h peer node.tree received
      else (some (rejected not_in_registry), node.tree) in
    (ack, record node { tree = t; registry = reg })

-- The two tries of handleInvite: the classic token first, then the commitment.
unfoldable pub redeem : Host → Bytes → ℕ → Manager → Bool × Manager
redeem h token now invites =
    let (first, invites1) = consume token now invites in
    let (second, invites2) = consume_commitment h.sha256 token now invites1 in
    elim first [
      | ok u ↦ (true, invites1)
      | err x ↦ elim second [ ok u ↦ (true, invites2) | err y ↦ (false, invites2) ]
    ]

-- The joiner's entry, with no time and no friendly name.
unfoldable pub joiner : InviteRequest → Entry
joiner req = record {
  peer_id = req.peer_id;
  pub_key = req.pub_key;
  friendly_name = [];
  addrs = req.addrs;
  added_at = 0;
}

-- Behind the redemption: an entry that cannot be stored is only logged.
unfoldable pub welcome_joiner : Host → ℕ → InviteRequest → Registry → InviteResponse × Registry
unfolding joiner
welcome_joiner h now req reg = elim h.own_public_key [
  | none ↦ (internal_error, reg)
  | some key ↦ (welcome h.id key, (add_entry now (joiner req) reg).1)
]

-- handleInvite at the time `now`
unfoldable pub handle_invite :
    Host → ℕ → Result WireError InviteRequest → Node → Option InviteResponse × Node
unfolding redeem welcome_joiner
handle_invite h now (err x) node = (none, node)
handle_invite h now (ok req) node =
    let (fine, invites) = redeem h req.token now node.invites in
    let (reply, reg) = welcome_joiner h now req node.registry in
    if fine
    then (some reply, record node { invites = invites; registry = reg })
    else (some bad_token, record node { invites = invites })

-- The push branch of handleManifest, with what json.Unmarshal gave.
unfoldable pub take_manifest : Host → Text → Tree → Option ManifestPush → Ack × Tree
take_manifest h peer t none = (rejected decode_failed, t)
take_manifest h peer t (some push) =
    if not (push.owner_id == peer)
    then (rejected owner_mismatch, t)
    else elim (put_manifest h.root t push.owner_id push.bytes) [
      | err x ↦ (rejected (store_failed x), t)
      | ok t' ↦ (accepted, t')
    ]

unfoldable pub found_blob : Result StoreError Bytes → Option Bytes
found_blob (err x) = none
found_blob (ok b) = some b

-- The request branch: the owner that is asked for, if the request could be parsed.
unfoldable pub serve_manifest : Host → Text → Tree → Option Text → Option ManifestReply
unfolding found_blob
serve_manifest h peer t none = none
serve_manifest h peer t (some owner) =
    if not (owner == peer)
    then some (manifest_response owner none)
    else some (manifest_response owner (found_blob (get_manifest h.root t owner)))

-- What json.Unmarshal makes of a message on the manifest protocol, by its type field.
pub data Envelope : Type 0 where
  manifest_push : Option ManifestPush → Envelope
  manifest_request : Option Text → Envelope
  unknown_type : Envelope

unfoldable pub dispatch : Host → Text → Tree → Option Envelope → Option ManifestReply × Tree
unfolding take_manifest serve_manifest
dispatch h peer t none = (none, t)
dispatch h peer t (some (manifest_push push)) =
    let (ack, t') = take_manifest h peer t push in (some (manifest_ack ack), t')
dispatch h peer t (some (manifest_request owner)) = (serve_manifest h peer t owner, t)
dispatch h peer t (some unknown_type) = (none, t)

-- `envelope` is the parsing of the raw message.
module _ (envelope : Bytes → Option Envelope) where
  unfoldable pub take_manifest_message :
      Host → Text → Tree → Result WireError Bytes → Option ManifestReply × Tree
  unfolding dispatch
  take_manifest_message h peer t (err x) = (none, t)
  take_manifest_message h peer t (ok raw) = dispatch h peer t (envelope raw)

  -- handleManifest
  unfoldable pub handle_manifest :
      Host → Text → Result WireError Bytes → Node → Option ManifestReply × Node
  unfolding take_manifest_message check_buddy_auth
  handle_manifest h peer received node =
      let (known, reg) = check_buddy_auth h peer node.registry in
      let (reply, t) =
        if known then take_manifest_message h peer node.tree received else (none, node.tree) in
      (reply, record node { tree = t; registry = reg })
