-- ===== src/Invite/Tokens.antt =====
-- A token is accepted while it is pending and has not expired, once.
use cerclbackup.Prelude.{
  ℕ, ◌+◌, ◌≤◌, ◌≡◌, refl, sym, ap, ◌∙◌, ◌≢◌, ◌↔◌, ◌⊎◌, inl, inr, true, false, List, [], ◌∷◌, ◌++◌,
  arith, ltb, ltb→lt, Bool-cases, ◌==◌, beq_iff, nat_eq, list_eq, Bytes, All, ok, err,
}
use cerclbackup.Invite.{
  Pending, PendingStore, saved, Manager, unknown_or_expired, Outcome, invite_ttl, fresh, generate,
  consume_loop, consume,
}

-- The token is pending and has not expired.
abbrev pub Redeemable : Bytes → ℕ → List Pending → Type 0
Redeemable token now [] = ⊥
Redeemable token now (p ∷ ps) = ((p.token ≡ token) × (now ≤ p.expires_at)) ⊎ Redeemable token now ps

-- No pending invite has the token, expired or not.
abbrev pub Unknown : Bytes → List Pending → Type 0
Unknown token ps = All (λ (p : Pending). p.token ≢ token) ps

Unknown-not-Redeemable :
    (token : Bytes) (now : ℕ) (ps : List Pending) → Unknown token ps → Redeemable token now ps → ⊥
Unknown-not-Redeemable token now [] u r = r
Unknown-not-Redeemable token now (p ∷ ps) (ne, u) (inl h) = ne h.0
Unknown-not-Redeemable token now (p ∷ ps) (ne, u) (inr h) = Unknown-not-Redeemable token now ps u h

consume_loop_found :
    (token : Bytes) (now : ℕ) (ps : List Pending)
    → (((consume_loop token now ps).1 ≡ true) × Redeemable token now ps)
      ⊎ (((consume_loop token now ps).1 ≡ false) × (Redeemable token now ps → ⊥))
unfolding consume_loop
consume_loop_found token now [] = inr (refl, λ h. h)
consume_loop_found token now (p ∷ ps) = elim (Bool-cases (ltb p.expires_at now)) [
  | inl t ↦ elim (consume_loop_found token now ps) [
    | inl (f, r) ↦ inl (rw t f, inr r)
    | inr (f, n) ↦
        inr (rw t f, λ h. elim h [ inl x ↦ absurd (omega (arith, ltb→lt _ _ t)) | inr r ↦ n r ])
  ]
  | inr t ↦ elim (Bool-cases (p.token == token)) [
    | inl u ↦ inl (rw (t, u) refl, inl ((beq_iff p.token token).0 u, ground arith))
    | inr u ↦ elim (consume_loop_found token now ps) [
      | inl (f, r) ↦ inl (rw (t, u) f, inr r)
      | inr (f, n) ↦
          inr (
            rw (t, u) f,
            λ h. elim h [ inl x ↦ cc (u, (beq_iff p.token token).1 x.0) | inr r ↦ n r ],
          )
    ]
  ]
]

-- What is left does not have the token.
consume_loop-Unknown :
    (token : Bytes) (now : ℕ) (ps : List Pending) → Unknown token (consume_loop token now ps).0
unfolding consume_loop
consume_loop-Unknown token now [] = tt
consume_loop-Unknown token now (p ∷ ps) = elim (Bool-cases (ltb p.expires_at now)) [
  | inl t ↦ rw t (consume_loop-Unknown token now ps)
  | inr t ↦ elim (Bool-cases (p.token == token)) [
    | inl u ↦ rw (t, u) (consume_loop-Unknown token now ps)
    | inr u ↦
        rw (t, u) ((λ q. cc (u, (beq_iff p.token token).1 q)), consume_loop-Unknown token now ps)
  ]
]

-- Other tokens stay as good as they were.
consume_loop_others :
    (token other : Bytes) (now : ℕ) (ps : List Pending)
    → other ≢ token
    → Redeemable other now (consume_loop token now ps).0 ↔ Redeemable other now ps
unfolding consume_loop
consume_loop_others token other now [] ne = (λ h. h, λ h. h)
consume_loop_others token other now (p ∷ ps) ne =
    let (there, back) = consume_loop_others token other now ps ne in
    elim (Bool-cases (ltb p.expires_at now)) [
      | inl t ↦ rw t (
        λ h. inr (there h),
        λ h. elim h [ inl x ↦ absurd (omega (arith, ltb→lt _ _ t)) | inr r ↦ back r ],
      )
      | inr t ↦ elim (Bool-cases (p.token == token)) [
        | inl u ↦
            rw (t, u)
              (
                λ h. inr (there h),
                λ h. elim h [
                  | inl x ↦ absurd (ne (sym x.0 ∙ (beq_iff p.token token).0 u))
                  | inr r ↦ back r
                ],
              )
        | inr u ↦
            rw (t, u)
              (
                λ h. elim h [ inl x ↦ inl x | inr r ↦ inr (there r) ],
                λ h. elim h [ inl x ↦ inl x | inr r ↦ inr (back r) ],
              )
      ]
    ]

abbrev pub on_disk : PendingStore → Manager
on_disk s = record { file = saved s; writable = true }

-- Consume over a readable and writable store succeeds if the token is pending and has not expired;
-- then no pending invite has the token any more, every other token is as redeemable as it was, and
-- the commitments stand. If not, it reports the unknown token and the store stays as it was.
pub consume_sound :
    (token : Bytes) (now : ℕ) (s : PendingStore)
    → (Redeemable token now s.pending
        × ((left : List Pending) × (consume token now (on_disk s)
              ≡ (ok tt, on_disk (record s { pending = left })))
            × Unknown token left
            × ((other : Bytes)
                → other ≢ token
                → Redeemable other now left ↔ Redeemable other now s.pending)))
      ⊎ ((Redeemable token now s.pending → ⊥)
          × (consume token now (on_disk s) ≡ (err unknown_or_expired, on_disk s)))
unfolding consume
consume_sound token now s = elim (consume_loop_found token now s.pending) [
  | inl (f, r) ↦ inl (
    r,
    (
      (consume_loop token now s.pending).0,
      rw f,
      consume_loop-Unknown token now s.pending,
      λ other ne. consume_loop_others token other now s.pending ne,
    ),
  )
  | inr (f, n) ↦ inr (n, rw f)
]

-- A token that Consume, over a readable and writable store, has accepted once is refused from then on, at every later or earlier time.
pub consume_once :
    (token : Bytes) (now later : ℕ) (s : PendingStore) (m : Manager)
    → consume token now (on_disk s) ≡ (ok tt, m)
    → (consume token later m).0 ≡ err unknown_or_expired
consume_once token now later s m h = elim (consume_sound token now s) [
  | inr (n, e) ↦ absurd (ground (arith, e))
  | inl (r, (left, e, gone, others)) ↦
      let same : m ≡ on_disk (record s { pending = left }) = cc in
      elim (consume_sound token later (record s { pending = left })) [
        | inl (r', more) ↦ absurd (Unknown-not-Redeemable token later left gone r')
        | inr (n, e') ↦ rw same (ap (λ (o : Outcome). o.0) e')
      ]
]

Redeemable-append :
    (token : Bytes) (now : ℕ) (ps qs : List Pending)
    → Redeemable token now qs
    → Redeemable token now (ps ++ qs)
Redeemable-append token now [] qs h = h
Redeemable-append token now (p ∷ ps) qs h = inr (Redeemable-append token now ps qs h)

-- Over a readable and writable store, whatever it held before: Generate succeeds, and the generated
-- token is accepted at every time that is at most 24 hours after its making.
pub consume-generate :
    (token : Bytes) (now later : ℕ) (s : PendingStore)
    → later ≤ now + invite_ttl
    → ((generate token now (on_disk s)).0 ≡ ok tt)
      × ((consume token later (generate token now (on_disk s)).1).0 ≡ ok tt)
unfolding generate
consume-generate token now later s h =
    let all : List Pending =
      fresh now s.pending ++ (record { token = token; expires_at = now + invite_ttl } ∷ []) in
    (
      refl,
      elim (consume_sound token later (record s { pending = all })) [
        | inl (r, (left, e, gone, others)) ↦ ap (λ (o : Outcome). o.0) e
        | inr (n, e) ↦
            absurd (n (Redeemable-append token later (fresh now s.pending) _ (inl (refl, h))))
      ],
    )
