-- ===== src/Handlers/Joining.antt =====
-- handleInvite: who becomes a buddy.
use cerclbackup.Registry.{get as get_entry, add as add_entry}
use cerclbackup.Invite.Tokens.{on_disk as invites_on_disk}
use cerclbackup.Prelude.{
  ℕ, ◌≡◌, refl, ◌⊎◌, inl, inr, true, false, some, [], arith, if◌then◌else◌, ◌==◌, nat_eq, list_eq,
  Bytes, Text, ok, Result-cases,
}
use cerclbackup.Registry.{
  Entry, RegistryFile, absent, broken, saved, Registry, load, save, loaded, stamped,
}
use cerclbackup.Registry.Lookups.{IsSound, get-add}
use cerclbackup.Invite.{PendingStore, consume_commitment}
use cerclbackup.Invite.Tokens.{Redeemable, consume_sound}
use cerclbackup.Handlers.{
  Node, Host, redeem, joiner, welcome_joiner, handle_invite, InviteRequest, welcome, bad_token,
}

-- Without a token or pre-image that is redeemed nobody becomes a buddy: the reply is a refusal, and
-- the registry and the store stay as they were.
pub handle_invite_refuses :
    (h : Host) (now : ℕ) (req : InviteRequest) (node : Node)
    → (redeem h req.token now node.invites).0 ≡ false
    → ((handle_invite h now (ok req) node).0 ≡ some bad_token)
      × ((handle_invite h now (ok req) node).1.registry ≡ node.registry)
      × ((handle_invite h now (ok req) node).1.tree ≡ node.tree)
unfolding handle_invite
handle_invite_refuses h now req node n = (rw n, rw n, rw n)

-- Over a readable and writable store of invites a token is redeemed only if it is pending and has not
-- expired, or ConsumeCommitment takes it as the pre-image of a commitment.
pub redeem_sound :
    (h : Host) (token : Bytes) (now : ℕ) (s : PendingStore)
    → (redeem h token now (invites_on_disk s)).0 ≡ true
    → Redeemable token now s.pending
      ⊎ ((consume_commitment h.sha256 token now (invites_on_disk s)).0 ≡ ok tt)
unfolding redeem
redeem_sound h token now s r = elim (consume_sound token now s) [
  | inl (yes_token, _) ↦ inl yes_token
  | inr (_, e) ↦ elim (Result-cases (consume_commitment h.sha256 token now (invites_on_disk s)).0) [
    | inl (tt, c) ↦ inr c
    | inr (x, c) ↦ absurd (ground (arith, r, e, c))
  ]
]

-- Over a registry whose map in memory is keyed by PeerID: a joiner whose token is redeemed by a node
-- that has its own key and adds the joiner to its registry without an error is answered with the
-- node's id and key, and from then on Get finds it under the id that it gave, with the key and the
-- addresses that it gave, no friendly name and the time of the invitation's redemption, and every other buddy as before.
pub handle_invite_registers :
    (h : Host) (now : ℕ) (req : InviteRequest) (node : Node) (key : Bytes) (reg : Registry)
    → IsSound node.registry.by_peer_id
    → (redeem h req.token now node.invites).0 ≡ true
    → h.own_public_key ≡ some key
    → add_entry now
        (record {
          peer_id = req.peer_id;
          pub_key = req.pub_key;
          friendly_name = [];
          addrs = req.addrs;
          added_at = 0;
        })
        node.registry
      ≡ (ok tt, reg)
    → ((handle_invite h now (ok req) node).0 ≡ some (welcome h.id key))
      × ((k : Text)
          → (get_entry k (handle_invite h now (ok req) node).1.registry).0 ≡ (
              if req.peer_id == k
              then some (record {
                peer_id = req.peer_id;
                pub_key = req.pub_key;
                friendly_name = [];
                addrs = req.addrs;
                added_at = now;
              })
              else (get_entry k node.registry).0))
unfolding handle_invite welcome_joiner joiner stamped
handle_invite_registers h now req node key reg s r o a =
    (rw (r, o), λ k. rw (r, o, a) (get-add now (joiner req) node.registry reg k s a))

add_fails :
    (now : ℕ) (e : Entry) (f : RegistryFile) (r : Registry)
    → r.file ≡ f
    → r.writable ≡ false
    → (add_entry now e r).1.file ≡ r.file
unfolding add_entry loaded load save
add_fails now e absent r f w = rw (f, w)
add_fails now e broken r f w = rw f
add_fails now e (saved entries) r f w = rw (f, w)

-- A node that redeems the token and has its own key but cannot write its registry still answers with its id and key,
-- while the registry's file stays as it was.
pub handle_invite_unregistered :
    (h : Host) (now : ℕ) (req : InviteRequest) (node : Node) (key : Bytes)
    → node.registry.writable ≡ false
    → (redeem h req.token now node.invites).0 ≡ true
    → h.own_public_key ≡ some key
    → ((handle_invite h now (ok req) node).0 ≡ some (welcome h.id key))
      × ((handle_invite h now (ok req) node).1.registry.file ≡ node.registry.file)
unfolding handle_invite welcome_joiner
handle_invite_unregistered h now req node key w r o =
    (rw (r, o), rw (r, o) (add_fails now (joiner req) node.registry.file node.registry refl w))
