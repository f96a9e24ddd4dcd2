-- ===== src/Scrub/Pass.antt =====
-- What the report of a pass counts, and what a revival leaves.
use cerclbackup.Prelude.{
  ℕ, zero, suc, ◌+◌, ◌≡◌, refl, sym, ◌∙◌, subst, inl, inr, Bool, true, false, Option, some, List,
  [], ◌∷◌, arith, ltb, if◌then◌else◌, Bool-cases, Option-cases, Bytes, length, Result, ok,
  Result-cases,
}
use cerclbackup.Files.{FilePath, Tree}
use cerclbackup.BuddyStore.{StoreError, get, put_with_hash, verify}
use cerclbackup.BuddyStore.Integrity.{verify-put_with_hash}
use cerclbackup.Scrub.{ShardRef, Report, revive, counted, run_loop, run_once}
use mathlib.Core.Path.{ap₂}

module _ (root : FilePath) (sha256 : Bytes → Bytes) (fetch : ShardRef → Option Bytes) where
  -- A revival that reports success has stored what the owner sent, and Verify accepts it.
  pub revive_sound :
      (ref : ShardRef) (t t' : Tree)
      → revive root sha256 fetch ref t ≡ (true, t')
      → (sent : Bytes) × (fetch ref ≡ some sent)
        × (get root t' ref.owner ref.file ref.index ≡ ok sent)
        × (verify root sha256 t' ref.owner ref.file ref.index ≡ true)
  unfolding revive
  revive_sound ref t t' h = elim (Option-cases (fetch ref)) [
    | inl e ↦ absurd (ground (arith, h, e))
    | inr (sent, e) ↦
        let after : Result StoreError (Unit {0}) × Tree =
          put_with_hash root sha256 t ref.owner ref.file ref.index sent in
        elim (Result-cases after.0) [
          | inr (x, p) ↦ absurd (ground (arith, h, e, p))
          | inl (u, p) ↦
              let same : after.1 ≡ t' = ground (arith, h, e, p) in
              let put : after ≡ (ok tt, t') =
                ap₂ (λ (a : Result StoreError (Unit {0})) (b : Tree). (a, b)) p same in
              let (got, good) =
                verify-put_with_hash root sha256 t t' ref.owner ref.file ref.index sent put in
              (sent, e, got, good)
        ]
  ]

  -- How the counters of a report stand after so many rounds.
  abbrev Adds : ℕ → Report → Report → Type 0
  Adds n r r' =
      (r'.checked ≡ r.checked)
      × (r'.healthy + r'.corrupted ≡ r.healthy + r.corrupted + n)
      × (r'.corrupted + r.revived + r.failed ≡ r'.revived + r'.failed + r.corrupted)

  abbrev lesser : ℕ → ℕ → ℕ
  lesser a b = if ltb a b then a else b

  counted-Adds : (b : Bool) (r : Report) → Adds 1 r (counted root sha256 fetch b r)
  unfolding counted
  counted-Adds true r = (refl, omega arith, omega arith)
  counted-Adds false r = (refl, omega arith, omega arith)

  lesser-suc : (a b : ℕ) → lesser (suc a) (suc b) ≡ lesser a b + 1
  lesser-suc a b = ground arith

  lesser_zero : (a : ℕ) → lesser a 0 ≡ 0
  lesser_zero a = ground arith

  lesser_none : (a : ℕ) → lesser 0 (suc a) ≡ 0
  lesser_none a = ground arith

  Adds-trans : (a b : ℕ) (r s t : Report) → Adds a r s → Adds b s t → Adds (b + a) r t
  Adds-trans a b r s t (c1, h1, f1) (c2, h2, f2) = (c2 ∙ c1, omega arith, omega arith)

  healthy-Adds : (r : Report) → Adds 1 r (record r { healthy = r.healthy + 1 })
  healthy-Adds r = (refl, omega arith, omega arith)

  nothing-Adds : (r : Report) → Adds 0 r r
  nothing-Adds r = (refl, omega arith, omega arith)

  run_loop-Adds :
      (rounds : ℕ) (refs : List ShardRef) (t : Tree) (r : Report)
      → Adds (lesser rounds (length refs)) r (run_loop root sha256 fetch rounds refs t r).0
  unfolding run_loop
  run_loop-Adds rounds [] t r =
      subst (λ (n : ℕ). Adds n r r) (sym (lesser_zero rounds)) (nothing-Adds r)
  run_loop-Adds zero (ref ∷ refs) t r =
      subst (λ (n : ℕ). Adds n r r) (sym (lesser_none (length refs))) (nothing-Adds r)
  run_loop-Adds (suc rounds) (ref ∷ refs) t r =
      let all = run_loop root sha256 fetch (suc rounds) (ref ∷ refs) t r in
      subst (λ (n : ℕ). Adds n r all.0) (sym (lesser-suc rounds (length refs)))
        (elim (Bool-cases (verify root sha256 t ref.owner ref.file ref.index)) [
          | inl v ↦
              let one : Report = record r { healthy = r.healthy + 1 } in
              let next : Report = (run_loop root sha256 fetch rounds refs t one).0 in
              let at : all.0 ≡ next = ground (arith, v) in
              subst (Adds (lesser rounds (length refs) + 1) r) (sym at) (
                Adds-trans 1 (lesser rounds (length refs)) r one next (healthy-Adds r)
                  (run_loop-Adds rounds refs t one))
          | inr v ↦
              let revival : Bool × Tree = revive root sha256 fetch ref t in
              let one : Report = counted root sha256 fetch revival.0 r in
              let next : Report = (run_loop root sha256 fetch rounds refs revival.1 one).0 in
              let at : all.0 ≡ next = ground (arith, v) in
              subst (Adds (lesser rounds (length refs) + 1) r) (sym at) (
                Adds-trans 1 (lesser rounds (length refs)) r one next (counted-Adds revival.0 r)
                  (run_loop-Adds rounds refs revival.1 one))
        ])

  -- The report of a pass over the shards that ListAll found: Checked counts them all; OK and
  -- Corrupted together count those that were looked at before the context was cancelled, and so are
  -- Checked if it was not; Corrupted is Revived and Failed together.
  pub run_once_sound :
      (rounds : ℕ) (refs : List ShardRef) (t : Tree)
      → (r : Report) × ((run_once root sha256 fetch rounds (ok refs) t).0 ≡ ok r)
        × (r.checked ≡ length refs)
        × (r.healthy + r.corrupted ≡ (if ltb rounds (length refs) then rounds else length refs))
        × (r.corrupted ≡ r.revived + r.failed)
  unfolding run_once
  run_once_sound rounds refs t =
      let begin : Report = record {
        checked = length refs;
        healthy = 0;
        corrupted = 0;
        revived = 0;
        failed = 0;
      } in
      let (c, h, f) = run_loop-Adds rounds refs t begin in
      ((run_loop root sha256 fetch rounds refs t begin).0, refl, c, omega arith, omega arith)
