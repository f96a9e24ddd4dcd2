-- ===== src/Queue/Delivery.antt =====
-- What FlushToPeer delivers and what it keeps, when nobody else uses the queue meanwhile.
use mathlib.Core.List.Perm
use cerclbackup.Prelude.{
  ◌≡◌, refl, inl, inr, Bool, true, List, [], ◌∷◌, ◌++◌, Bool-cases, ◌==◌, beq_iff, nat_eq, list_eq,
  Text, All,
}
use cerclbackup.Queue.{PendingItem, items, Queue, flush_loop, flush_to_peer}
use mathlib.Core.List.{Perm, perm_middle}

-- Nobody else takes the lock.
abbrev pub undisturbed : Queue → Queue
undisturbed q = q

module _ (push : PendingItem → Bool) (peer : Text) where
  -- The items for the peer that the buddy acknowledges.
  abbrev pub Delivered : PendingItem → Type 0
  Delivered i = (i.peer_id ≡ peer) × (push i ≡ true)

  flush_loop-perm :
      (d : List PendingItem) → Perm ((flush_loop push peer d).0 ++ (flush_loop push peer d).1) d
  unfolding flush_loop
  flush_loop-perm [] = Perm.refl []
  flush_loop-perm (i ∷ d) =
      let rest = flush_loop push peer d in
      elim (Bool-cases (i.peer_id == peer)) [
        | inr t ↦ rw t (Perm.cons i (flush_loop-perm d))
        | inl t ↦ elim (Bool-cases (push i)) [
          | inr p ↦ rw (t, p) (Perm.cons i (flush_loop-perm d))
          | inl p ↦
              rw (t, p) (Perm.trans (perm_middle rest.0 rest.1) (Perm.cons i (flush_loop-perm d)))
        ]
      ]

  flush_loop-sent : (d : List PendingItem) → All Delivered (flush_loop push peer d).1
  unfolding flush_loop
  flush_loop-sent [] = tt
  flush_loop-sent (i ∷ d) = elim (Bool-cases (i.peer_id == peer)) [
    | inr t ↦ rw t (flush_loop-sent d)
    | inl t ↦ elim (Bool-cases (push i)) [
      | inr p ↦ rw (t, p) (flush_loop-sent d)
      | inl p ↦ rw (t, p) (((beq_iff i.peer_id peer).0 t, p), flush_loop-sent d)
    ]
  ]

  flush_loop-kept :
      (d : List PendingItem) → All (λ (i : PendingItem). Delivered i → ⊥) (flush_loop push peer d).0
  unfolding flush_loop
  flush_loop-kept [] = tt
  flush_loop-kept (i ∷ d) = elim (Bool-cases (i.peer_id == peer)) [
    | inr t ↦ rw t (λ h. cc (t, (beq_iff i.peer_id peer).1 h.0), flush_loop-kept d)
    | inl t ↦ elim (Bool-cases (push i)) [
      | inr p ↦ rw (t, p) (λ h. cc (p, h.1), flush_loop-kept d)
      | inl p ↦ rw (t, p) (flush_loop-kept d)
    ]
  ]

  -- FlushToPeer of a readable and writable queue that nobody else uses meanwhile: every item is
  -- either left in the queue or delivered, none is lost and none doubled; delivered are exactly
  -- items for the peer that it acknowledged, and none such is left in the queue.
  pub flush_to_peer_sound :
      (d : List PendingItem)
      → (left sent : List PendingItem) × (flush_to_peer push peer undisturbed
            (record { file = items d; writable = true })
          ≡ (record { file = items left; writable = true }, sent))
        × Perm (left ++ sent) d
        × All Delivered sent
        × All (λ (i : PendingItem). Delivered i → ⊥) left
  unfolding flush_to_peer
  flush_to_peer_sound d =
      let (left, sent) = flush_loop push peer d in
      (left, sent, refl, flush_loop-perm d, flush_loop-sent d, flush_loop-kept d)
