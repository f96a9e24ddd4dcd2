-- ===== src/Scrub.antt =====
-- internal/scrub/scrub.go: a pass over the shards that a node holds, which fetches corrupted ones again.
pub mod Pass
pub mod Examples
use cerclbackup.Prelude.{
  ℕ, zero, suc, ◌+◌, Bool, true, false, Option, none, some, List, [], ◌∷◌, if◌then◌else◌, Bytes,
  Text, length, Result, ok, err,
}
use cerclbackup.Files.{FilePath, Tree}
use cerclbackup.Files.Decimal.{ℤ}
use cerclbackup.BuddyStore.{StoreError, put_with_hash, verify}

-- buddy.ShardRef
pub record ShardRef : Type 0 where
  pub owner : Text
  pub file : Text
  pub index : ℤ

pub record Report : Type 0 where
  pub checked : ℕ
  pub healthy : ℕ
  pub corrupted : ℕ
  pub revived : ℕ
  pub failed : ℕ

-- `root` and `sha256` are the buddy store's. `fetch` is the way to the owner in revive: peer.Decode,
-- the connection and p2p.FetchShard; `none` is a failure of one of them.
module _ (root : FilePath) (sha256 : Bytes → Bytes) (fetch : ShardRef → Option Bytes) where
  -- revive(ref): whether it succeeded, and the store from then on.
  unfoldable pub revive : ShardRef → Tree → Bool × Tree
  revive ref t = elim (fetch ref) [
    | none ↦ (false, t)
    | some blob ↦
        let (stored, t') = put_with_hash root sha256 t ref.owner ref.file ref.index blob in
        elim stored [ ok u ↦ (true, t') | err x ↦ (false, t') ]
  ]

  unfoldable pub counted : Bool → Report → Report
  counted fine r =
      if fine
      then record r { corrupted = r.corrupted + 1; revived = r.revived + 1 }
      else record r { corrupted = r.corrupted + 1; failed = r.failed + 1 }

  -- The loop of RunOnce. The context is cancelled after `rounds` of its rounds.
  unfoldable pub run_loop : ℕ → List ShardRef → Tree → Report → Report × Tree
  unfolding revive counted
  run_loop rounds [] t r = (r, t)
  run_loop zero (ref ∷ refs) t r = (r, t)
  run_loop (suc rounds) (ref ∷ refs) t r =
      let revival = revive ref t in
      let skip = run_loop rounds refs t (record r { healthy = r.healthy + 1 }) in
      let next = run_loop rounds refs revival.1 (counted revival.0 r) in
      if verify root sha256 t ref.owner ref.file ref.index then skip else next

  -- RunOnce, with what ListAll returned.
  unfoldable pub run_once :
      ℕ → Result StoreError (List ShardRef) → Tree → Result StoreError Report × Tree
  unfolding run_loop
  run_once rounds (err x) t = (err x, t)
  run_once rounds (ok refs) t =
      let (r, t') =
        run_loop rounds refs t
          (record { checked = length refs; healthy = 0; corrupted = 0; revived = 0; failed = 0 }) in
      (ok r, t')
