-- ===== src/Handlers/Examples.antt =====
-- A node with one buddy, whose key is checked, and a stranger.
use cerclbackup.Registry.{get as get_entry, add as add_entry}
use cerclbackup.BuddyStore.{get as get_shard}
use cerclbackup.Invite.Tokens.{on_disk as invites_on_disk}
use cerclbackup.Prelude.{
  ◌≡◌, refl, ◌⊎◌, inl, true, false, Option, none, some, [], ◌∷◌, if◌then◌else◌, ◌==◌, nat_eq,
  list_beq, list_eq, Bytes, Text, text, length, take, lookup, insert, ok, err,
}
use cerclbackup.Files.{
  FilePath, split_slash, enter, enter_all, join, is_below, above_is_file, has_below, write_file,
}
use cerclbackup.Files.Decimal.{pos, digits, itoa}
use cerclbackup.BuddyStore.{
  contains_any_slash, is_safe_path_component, remote, shard_name, on_disk, shard_path, with_hash,
  hash_path, put, put_with_hash,
}
use cerclbackup.BuddyStore.Confined.{Outside}
use cerclbackup.Registry.{
  Entry, saved, Registry, index_entries, entries_of, load, save, loaded, stamped,
}
use cerclbackup.Invite.{
  PendingStore, save_locked, with_store, consume_loop, consumed, consume, commitment_loop,
  commitment_consumed, consume_commitment,
}
use cerclbackup.Wire.{empty_message}
use cerclbackup.Handlers.{
  Node, Host, same_key, entry_matches, check_buddy_auth, not_found, handle_pull, stored_ack,
  take_push, handle_shard, redeem, handle_invite, Envelope, handle_manifest, ShardPush,
  ShardRequest, ShardResponse, not_in_registry, accepted, rejected, InviteRequest, welcome,
}
use cerclbackup.Handlers.Auth.{
  check_buddy_auth_sound, IsStranger, Unchanged, unauthenticated_gets_nothing,
}
use cerclbackup.Handlers.Access.{handlers_confined, handle_pull_sound, handle_pull-handle_shard}
use cerclbackup.Handlers.Joining.{handle_invite_registers}

abbrev pub bob : Text
bob = text "bob"

abbrev pub host : Host
host = record {
  id = text "me";
  root = text "data" ∷ [];
  sha256 = λ b. take 1 b;
  unmarshal_public_key = λ b. some b;
  extract_public_key = λ p. if p == bob then some (2 ∷ []) else none;
  own_public_key = some (9 ∷ []);
}

abbrev pub bob_entry : Entry
bob_entry = record { peer_id = bob; pub_key = 2 ∷ []; friendly_name = []; addrs = []; added_at = 3 }

abbrev pub invites : PendingStore
invites = record { pending = record { token = 4 ∷ []; expires_at = 50 } ∷ []; commitments = [] }

abbrev pub known_bob : Registry
known_bob = record { file = saved (bob_entry ∷ []); writable = true; by_peer_id = [] }

abbrev pub node : Node
node = record {
  tree = record { files = []; fault = λ p. false };
  registry = known_bob;
  invites = invites_on_disk invites;
}

abbrev pub push : ShardPush
push = record {
  owner_id = bob;
  file_id = text "f";
  shard_index = pos 0;
  is_parity = false;
  bytes = 7 ∷ 8 ∷ [];
}

abbrev carl_request : InviteRequest
carl_request = record { token = 4 ∷ []; peer_id = text "carl"; pub_key = 5 ∷ []; addrs = [] }

bob_is_known : (check_buddy_auth host bob known_bob).0 ≡ true
unfolding check_buddy_auth entry_matches same_key get_entry loaded load index_entries insert lookup
    list_beq
bob_is_known = refl

carl_is_unknown : (check_buddy_auth host (text "carl") known_bob).0 ≡ false
unfolding check_buddy_auth entry_matches same_key get_entry loaded load index_entries insert lookup
    list_beq
carl_is_unknown = refl

pub bob_pushes : (handle_shard host bob (ok push) node).0 ≡ some accepted
unfolding handle_shard take_push stored_ack check_buddy_auth entry_matches same_key get_entry loaded
    load index_entries insert lookup list_beq put_with_hash put on_disk hash_path with_hash
    shard_path is_safe_path_component contains_any_slash shard_name itoa digits join enter_all enter
    split_slash write_file above_is_file has_below is_below
bob_pushes = refl

check_buddy_auth_sound_example :
    (entry : Entry) × ((get_entry bob known_bob).0 ≡ some entry)
    × ((length entry.pub_key ≡ 0)
        ⊎ ((key : Bytes) × (host.unmarshal_public_key entry.pub_key ≡ some key)
            × (host.extract_public_key bob ≡ some key)))
check_buddy_auth_sound_example = check_buddy_auth_sound host bob known_bob bob_is_known

carl_IsStranger : IsStranger host (text "carl") known_bob
unfolding get_entry loaded load index_entries insert lookup list_beq
carl_IsStranger = inl refl

abbrev no_envelope : Bytes → Option Envelope
no_envelope raw = none

unauthenticated_gets_nothing_example :
    (((handle_shard host (text "carl") (ok push) node).0 ≡ some (rejected not_in_registry))
      × Unchanged node (handle_shard host (text "carl") (ok push) node).1)
    × (((handle_pull host (text "carl") (err empty_message) node).0 ≡ some not_found)
        × Unchanged node (handle_pull host (text "carl") (err empty_message) node).1)
    × (((handle_manifest no_envelope host (text "carl") (ok []) node).0 ≡ none)
        × Unchanged node (handle_manifest no_envelope host (text "carl") (ok []) node).1)
unauthenticated_gets_nothing_example =
    unauthenticated_gets_nothing host (text "carl") node no_envelope (ok push) (err empty_message)
      (ok []) carl_IsStranger

abbrev ann_file : FilePath
ann_file = text "0.shard" ∷ text "f" ∷ text "ann" ∷ remote ∷ text "data" ∷ []

ann_file-Outside : Outside host.root bob ann_file
unfolding is_below list_beq
ann_file-Outside = refl

handlers_confined_example :
    (lookup ann_file (handle_shard host bob (ok push) node).1.tree.files
      ≡ lookup ann_file node.tree.files)
    × (lookup ann_file (handle_pull host bob (err empty_message) node).1.tree.files
        ≡ lookup ann_file node.tree.files)
    × (lookup ann_file (handle_manifest no_envelope host bob (ok []) node).1.tree.files
        ≡ lookup ann_file node.tree.files)
handlers_confined_example =
    handlers_confined host bob node no_envelope (ok push) (err empty_message) (ok []) ann_file
      ann_file-Outside

abbrev pulled : ShardResponse
pulled = record { file_id = text "f"; shard_index = pos 0; bytes = 7 ∷ 8 ∷ []; found = true }

abbrev own_request : ShardRequest
own_request = record { owner_id = bob; file_id = text "f"; shard_index = pos 0 }

bob_still_known :
    (check_buddy_auth host bob (handle_shard host bob (ok push) node).1.registry).0 ≡ true
unfolding handle_shard check_buddy_auth entry_matches same_key get_entry loaded load index_entries
    insert lookup list_beq
bob_still_known = refl

handle_pull_sound_example :
    ((check_buddy_auth host bob (handle_shard host bob (ok push) node).1.registry).0 ≡ true)
    × ((own_request.owner_id ≡ bob) ⊎ (own_request.owner_id ≡ host.id))
    × (get_shard host.root (handle_shard host bob (ok push) node).1.tree bob (text "f") (pos 0)
        ≡ ok pulled.bytes)
handle_pull_sound_example =
    handle_pull_sound host bob (handle_shard host bob (ok push) node).1 own_request pulled
      (handle_pull-handle_shard host bob node push bob_pushes) refl

carl_token_redeemed : (redeem host (4 ∷ []) 20 node.invites).0 ≡ true
unfolding redeem consume consume_loop consumed with_store save_locked list_beq
carl_token_redeemed = refl

wrong_token : (redeem host (6 ∷ []) 20 node.invites).0 ≡ false
unfolding redeem consume consume_loop consumed with_store save_locked list_beq consume_commitment
    commitment_loop commitment_consumed
wrong_token = refl

abbrev carl_entry : Entry
carl_entry = record {
  peer_id = text "carl";
  pub_key = 5 ∷ [];
  friendly_name = [];
  addrs = [];
  added_at = 20;
}

abbrev carl_added : Registry
carl_added = record {
  file = saved (bob_entry ∷ carl_entry ∷ []);
  writable = true;
  by_peer_id = (bob, bob_entry) ∷ (text "carl", carl_entry) ∷ [];
}

add_carl :
    add_entry 20
      (record {
        peer_id = carl_request.peer_id;
        pub_key = carl_request.pub_key;
        friendly_name = [];
        addrs = carl_request.addrs;
        added_at = 0;
      })
      known_bob
    ≡ (ok tt, carl_added)
unfolding add_entry stamped loaded load save index_entries entries_of insert list_beq
add_carl = refl

handle_invite_registers_example :
    ((handle_invite host 20 (ok carl_request) node).0 ≡ some (welcome host.id (9 ∷ [])))
    × ((k : Text)
        → (get_entry k (handle_invite host 20 (ok carl_request) node).1.registry).0
          ≡ (if carl_request.peer_id == k then some carl_entry else (get_entry k node.registry).0))
handle_invite_registers_example =
    handle_invite_registers host 20 carl_request node (9 ∷ []) carl_added (tt, tt)
      carl_token_redeemed refl add_carl

abbrev stuck : Node
stuck = record node { registry = record known_bob { writable = false } }
