-- ===== src/Invite.antt =====
-- internal/invite/generator.go: invite tokens and commitments, each good for one use.
pub mod Tokens
pub mod Commitments
pub mod Mnemonic
pub mod Examples
use cerclbackup.Prelude.{
  ℕ, zero, suc, ◌+◌, ◌*◌, ◌/◌, ◌%◌, ◌^◌, Bool, true, false, not, ◌&&◌, ◌||◌, Option, none, some,
  List, [], ◌∷◌, ◌++◌, ltb, if◌then◌else◌, ◌==◌, nat_eq, list_eq, Bytes, length, take, Result, ok,
  err,
}

pub record Pending : Type 0 where
  pub token : Bytes
  pub expires_at : ℕ

pub record Commitment : Type 0 where
  pub hash : Bytes
  pub expires_at : ℕ

-- pendingStore: what loadLocked returns; a file that is not there is an empty store.
pub record PendingStore : Type 0 where
  pub pending : List Pending
  pub commitments : List Commitment

-- The store on disk. `broken` is a file that cannot be read or parsed; where `writable` is false
-- saveLocked fails.
pub data StoreFile : Type 0 where
  broken : StoreFile
  saved : PendingStore → StoreFile

pub record Manager : Type 0 where
  pub file : StoreFile
  pub writable : Bool

pub data InviteError : Type 0 where
  load_failed save_failed unknown_or_expired no_commitment : InviteError

abbrev pub Outcome : Type 0
Outcome = Result InviteError (Unit {0}) × Manager

unfoldable pub save_locked : PendingStore → Manager → Outcome
save_locked s m = if m.writable then (ok tt, record m { file = saved s }) else (err save_failed, m)

-- Each operation loads the store, or fails.
unfoldable pub with_store : Manager → (PendingStore → Outcome) → Outcome
with_store m f = elim m.file [ broken ↦ (err load_failed, m) | saved s ↦ f s ]

-- 24 hours in nanoseconds
abbrev pub invite_ttl : ℕ
invite_ttl = 24 * 60 * 60 * 1_000_000_000

-- The loop of addPending: what has not expired, strictly.
unfoldable pub fresh : ℕ → List Pending → List Pending
fresh now [] = []
fresh now (p ∷ ps) = let rest = fresh now ps in if ltb now p.expires_at then p ∷ rest else rest

-- addPending(p) at the time `now`
unfoldable pub add_pending : Pending → ℕ → Manager → Outcome
unfolding fresh save_locked with_store
add_pending p now m =
    with_store m λ s. save_locked (record s { pending = fresh now s.pending ++ (p ∷ []) }) m

-- Generate, once the token is drawn: it is pending for 24 hours.
unfoldable pub generate : Bytes → ℕ → Manager → Outcome
unfolding add_pending
generate token now m = add_pending (record { token = token; expires_at = now + invite_ttl }) now m

-- The loop of Consume: what is left, and whether the token was found.
unfoldable pub consume_loop : Bytes → ℕ → List Pending → List Pending × Bool
consume_loop token now [] = ([], false)
consume_loop token now (p ∷ ps) =
    let (filtered, found) = consume_loop token now ps in
    if ltb p.expires_at now
    then (filtered, found)
    else if p.token == token
    then (filtered, true)
    else (p ∷ filtered, found)

unfoldable pub consumed : PendingStore → List Pending × Bool → Manager → Outcome
unfolding save_locked
consumed s (filtered, found) m =
    if found then save_locked (record s { pending = filtered }) m else (err unknown_or_expired, m)

-- Consume(token)
unfoldable pub consume : Bytes → ℕ → Manager → Outcome
unfolding consume_loop consumed with_store
consume token now m = with_store m λ s. consumed s (consume_loop token now s.pending) m

-- AddCommitment(hash, expiresAt)
unfoldable pub add_commitment : Bytes → ℕ → Manager → Outcome
unfolding save_locked with_store
add_commitment hash expires_at m = with_store m λ s.
    save_locked
      (record s {
        commitments = s.commitments ++ (record { hash = hash; expires_at = expires_at } ∷ []);
      })
      m

-- The loop of ConsumeCommitment, with the hash of the pre-image; only the first match goes.
unfoldable pub commitment_loop : Bytes → ℕ → Bool → List Commitment → List Commitment × Bool
commitment_loop h now found [] = ([], found)
commitment_loop h now found (c ∷ cs) =
    let hit : Bool = not found && (not (ltb c.expires_at now) && (c.hash == h)) in
    let (remaining, found') = commitment_loop h now (found || hit) cs in
    if hit then (remaining, found') else (c ∷ remaining, found')

unfoldable pub commitment_consumed : PendingStore → List Commitment × Bool → Manager → Outcome
unfolding save_locked
commitment_consumed s (remaining, found) m =
    if found then save_locked (record s { commitments = remaining }) m else (err no_commitment, m)

-- ConsumeCommitment(preimage); `sha256` is crypto/sha256.Sum256.
unfoldable pub consume_commitment : (Bytes → Bytes) → Bytes → ℕ → Manager → Outcome
unfolding commitment_loop commitment_consumed with_store
consume_commitment sha256 preimage now m =
    with_store m
      λ s. commitment_consumed s (commitment_loop (sha256 preimage) now false s.commitments) m

-- TokenFromMnemonic, of the bytes that go-bip39 decodes: with 17 bytes or more the four bits in
-- front are dropped.
unfoldable pub shifted : ℕ → Bytes → Bytes
shifted zero raw = []
shifted (suc n) [] = []
shifted (suc n) (a ∷ []) = []
shifted (suc n) (a ∷ b ∷ raw) = (a * 2 ^ 4 % 256 + b / 2 ^ 4) ∷ shifted n (b ∷ raw)

unfoldable pub token_from_entropy : Bytes → Option Bytes
unfolding shifted
token_from_entropy raw =
    if ltb (length raw) 17
    then (if ltb (length raw) 16 then none else some (take 16 raw))
    else some (shifted 16 raw)
