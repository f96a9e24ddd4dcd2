-- ===== src/Handlers/Auth.antt =====
-- checkBuddyAuth, and what a peer gets that does not pass it.
use cerclbackup.Registry.{get as get_entry}
use cerclbackup.Prelude.{
  ◌<◌, ◌≡◌, refl, sym, ap, ◌∙◌, ◌≢◌, ◌⊎◌, inl, inr, true, false, Option, none, some, arith,
  Bool-cases, Option-cases, ◌==◌, beq_iff, nat_eq, list_eq, Bytes, Text, length, Result,
}
use cerclbackup.Registry.{Entry, RegistryFile, absent, broken, saved, Registry, load}
use cerclbackup.Wire.{WireError}
use cerclbackup.Handlers.{
  Node, Host, entry_matches, check_buddy_auth, not_found, handle_pull, handle_shard, Envelope,
  handle_manifest, ShardPush, ShardRequest, not_in_registry, rejected,
}

get-file :
    (k : Text) (f : RegistryFile) (r : Registry) → r.file ≡ f → (get_entry k r).1.file ≡ r.file
unfolding get_entry load
get-file k absent r h = rw h
get-file k broken r h = rw h
get-file k (saved entries) r h = rw h

get-get :
    (k : Text) (f : RegistryFile) (r : Registry)
    → r.file ≡ f
    → (get_entry k (get_entry k r).1).0 ≡ (get_entry k r).0
unfolding get_entry load
get-get k absent r h = rw h
get-get k broken r h = rw h
get-get k (saved entries) r h = rw h

-- The registry's file is not changed by checkBuddyAuth, and a second check answers the same.
pub check_buddy_auth_lem :
    (h : Host) (peer : Text) (reg : Registry)
    → ((check_buddy_auth h peer reg).1.file ≡ reg.file)
      × ((check_buddy_auth h peer (check_buddy_auth h peer reg).1).0
          ≡ (check_buddy_auth h peer reg).0)
unfolding check_buddy_auth
check_buddy_auth_lem h peer reg =
    (get-file peer reg.file reg refl, ap (entry_matches h peer) (get-get peer reg.file reg refl))

-- A peer passes checkBuddyAuth only if the registry has an entry for it, and if that entry has a
-- key, only if it parses to the key that the peer's id embeds.
pub check_buddy_auth_sound :
    (h : Host) (peer : Text) (reg : Registry)
    → (check_buddy_auth h peer reg).0 ≡ true
    → (entry : Entry) × ((get_entry peer reg).0 ≡ some entry)
      × ((length entry.pub_key ≡ 0)
          ⊎ ((key : Bytes) × (h.unmarshal_public_key entry.pub_key ≡ some key)
              × (h.extract_public_key peer ≡ some key)))
unfolding check_buddy_auth
check_buddy_auth_sound h peer reg passed = elim (Option-cases (get_entry peer reg).0) [
  | inl e ↦ absurd (ground (arith, e))
  | inr (entry, e) ↦ (
    entry,
    e,
    elim (Bool-cases (length entry.pub_key == 0)) [
      | inl t ↦ inl ((beq_iff (length entry.pub_key) 0).0 t)
      | inr t ↦ elim (Option-cases (h.unmarshal_public_key entry.pub_key)) [
        | inl s ↦ absurd (ground (arith, e, t, s))
        | inr (stored, s) ↦ elim (Option-cases (h.extract_public_key peer)) [
          | inl c ↦ absurd (ground (arith, e, t, s, c))
          | inr (conn, c) ↦
              let equal : (stored == conn) ≡ true = ground (arith, e, t, s, c) in
              inr (stored, s, c ∙ ap some (sym ((beq_iff stored conn).0 equal)))
        ]
      ]
    ],
  )
]

-- A peer that the registry does not know, or knows with a key that is not the one of the peer's id.
abbrev pub IsStranger : Host → Text → Registry → Type 0
IsStranger h peer reg =
    ((get_entry peer reg).0 ≡ none)
    ⊎ ((entry : Entry) × ((get_entry peer reg).0 ≡ some entry)
        × (0 < length entry.pub_key)
        × ((key : Bytes)
            → h.unmarshal_public_key entry.pub_key ≡ some key
            → h.extract_public_key peer ≢ some key))

stranger_fails :
    (h : Host) (peer : Text) (reg : Registry)
    → IsStranger h peer reg
    → (check_buddy_auth h peer reg).0 ≡ false
stranger_fails h peer reg why = elim (Bool-cases (check_buddy_auth h peer reg).0) [
  | inr failed ↦ failed
  | inl passed ↦
      let (entry, known, key) = check_buddy_auth_sound h peer reg passed in
      elim why [
        | inl unknown ↦ absurd (ground (arith, sym unknown ∙ known))
        | inr (entry', known', keyed, differs) ↦
            let same : entry ≡ entry' = ground (arith, sym known ∙ known') in
            elim key [
              | inl empty_key ↦
                  absurd
                    (omega (arith, keyed, ap (λ (e : Entry). length e.pub_key) same, empty_key))
              | inr (k, stored, conn) ↦ absurd (differs k (rw same at stored) conn)
            ]
      ]
]

-- The parts of a node that outlast a restart.
abbrev pub Unchanged : Node → Node → Type 0
Unchanged node node' =
    (node'.tree ≡ node.tree)
    × (node'.invites ≡ node.invites)
    × (node'.registry.file ≡ node.registry.file)

-- Whatever a peer sends that has no entry in the registry, or one with a key that is not the key that
-- the peer's id embeds: a push is refused, a pull finds nothing,
-- a message about manifests is not answered, and none of them changes the store, the invites or the
-- registry's file.
pub unauthenticated_gets_nothing :
    (h : Host) (peer : Text) (node : Node) (envelope : Bytes → Option Envelope)
    (push : Result WireError ShardPush) (pull : Result WireError ShardRequest)
    (raw : Result WireError Bytes)
    → IsStranger h peer node.registry
    → (((handle_shard h peer push node).0 ≡ some (rejected not_in_registry))
        × Unchanged node (handle_shard h peer push node).1)
      × (((handle_pull h peer pull node).0 ≡ some not_found)
          × Unchanged node (handle_pull h peer pull node).1)
      × (((handle_manifest envelope h peer raw node).0 ≡ none)
          × Unchanged node (handle_manifest envelope h peer raw node).1)
unfolding handle_shard handle_pull handle_manifest
unauthenticated_gets_nothing h peer node envelope push pull raw stranger =
    let h_no = stranger_fails h peer node.registry stranger in
    let file = (check_buddy_auth_lem h peer node.registry).0 in
    (
      (rw h_no, (rw h_no, refl, file)),
      (rw h_no, (refl, refl, file)),
      (rw h_no, (rw h_no, refl, file)),
    )
