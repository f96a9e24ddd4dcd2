-- ===== src/Invite/Commitments.antt =====
-- A pre-image is accepted for a pending commitment that has not expired, and takes one away.
use cerclbackup.Prelude.{
  ℕ, ◌≤◌, ◌≡◌, refl, ◌⊎◌, inl, inr, true, false, not, ◌&&◌, List, [], ◌∷◌, arith, ltb, Bool-cases,
  ◌==◌, beq_iff, nat_eq, list_eq, Bytes, All, ok, err,
}
use cerclbackup.Invite.{
  Commitment, PendingStore, no_commitment, commitment_loop, consume_commitment,
}
use cerclbackup.Invite.Tokens.{on_disk}

module _ (h : Bytes) (now : ℕ) where
  -- The commitment is to the hash and has not expired.
  abbrev pub Matches : Commitment → Type 0
  Matches c = (c.hash ≡ h) × (now ≤ c.expires_at)

  -- `Taken before after`: `after` is `before` without its first matching commitment.
  pub data Taken : List Commitment → List Commitment → Type 0 where
    here : {c : Commitment} {cs : List Commitment} → Matches c → Taken (c ∷ cs) cs
    later :
        {c : Commitment} {cs rest : List Commitment}
        → (Matches c → ⊥)
        → Taken cs rest
        → Taken (c ∷ cs) (c ∷ rest)

  -- Once a commitment is found the rest is left alone.
  loop_found : (cs : List Commitment) → commitment_loop h now true cs ≡ (cs, true)
  unfolding commitment_loop
  loop_found [] = refl
  loop_found (c ∷ cs) = rw (loop_found cs)

  loop_sound :
      (cs : List Commitment)
      → ((rest : List Commitment) × (commitment_loop h now false cs ≡ (rest, true)) × Taken cs rest)
        ⊎ ((commitment_loop h now false cs ≡ (cs, false))
            × All (λ (c : Commitment). Matches c → ⊥) cs)
  unfolding commitment_loop
  loop_sound [] = inr (refl, tt)
  loop_sound (c ∷ cs) = elim (Bool-cases (not (ltb c.expires_at now) && (c.hash == h))) [
    | inl t ↦
        inl (cs, rw t (rw (loop_found cs)), here (ground (arith, beq_iff c.hash h), ground arith))
    | inr t ↦
        let differs : Matches c → ⊥ = λ m. ground (arith, beq_iff c.hash h, m.0, m.1) in
        elim (loop_sound cs) [
          | inl (rest, e, k) ↦ inl (c ∷ rest, rw t (rw e), later differs k)
          | inr (e, n) ↦ inr (rw t (rw e), (differs, n))
        ]
  ]

-- ConsumeCommitment over a readable and writable store: if some commitment is to the hash of the
-- pre-image and has not expired, it succeeds and takes away the first such one and nothing else;
-- if none is, it fails and the store stays as it was.
pub consume_commitment_sound :
    (sha256 : Bytes → Bytes) (preimage : Bytes) (now : ℕ) (s : PendingStore)
    → ((rest : List Commitment) × (consume_commitment sha256 preimage now (on_disk s)
          ≡ (ok tt, on_disk (record s { commitments = rest })))
        × Taken (sha256 preimage) now s.commitments rest)
      ⊎ ((consume_commitment sha256 preimage now (on_disk s) ≡ (err no_commitment, on_disk s))
          × All (λ (c : Commitment). Matches (sha256 preimage) now c → ⊥) s.commitments)
unfolding consume_commitment
consume_commitment_sound sha256 preimage now s =
    elim (loop_sound (sha256 preimage) now s.commitments) [
      | inl (rest, e, k) ↦ inl (rest, rw e, k)
      | inr (e, n) ↦ inr (rw e, n)
    ]
