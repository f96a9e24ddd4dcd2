-- ===== src/Watcher/Steps.antt =====
-- The steps that can happen, in any order.
use cerclbackup.Prelude.{
  ◌≡◌, refl, sym, ap, ◌∙◌, ◌≢◌, ◌⊎◌, inl, inr, true, false, List, [], ◌∷◌, arith, Bool-cases,
  beq_iff, beq_refl, nat_eq, list_eq, In,
}
use cerclbackup.Watcher.{
  Timer, same_timer, State, initial, Event, stop_timer, on_event, on_pop, on_fire, on_stop,
}

-- `Reached es s`: run came to the state `s` by the events `es`, the latest first. Its timers run
-- out, and their functions take the lock, at any time, after a stop as well.
pub data Reached : List Event → State → Type 0 where
  starts : Reached [] initial
  receives :
      (ev : Event) (es : List Event) (s : State)
      → Reached es s
      → s.stopped ≡ false
      → Reached (ev ∷ es) (on_event ev s)
  pops :
      (t : Timer) (es : List Event) (s : State)
      → Reached es s
      → In t s.armed
      → Reached es (on_pop t s)
  fires :
      (t : Timer) (es : List Event) (s : State)
      → Reached es s
      → In t s.popped
      → Reached es (on_fire t s)
  stops : (es : List Event) (s : State) → Reached es s → Reached es (on_stop s)

same_timer_sound : (a b : Timer) → same_timer a b ≡ true → (a.path ≡ b.path) × (a.gen ≡ b.gen)
unfolding same_timer
same_timer_sound a b h = ground (arith, h, beq_iff a.path b.path, beq_iff a.gen b.gen)

same_timer_eq : (a b : Timer) → same_timer a b ≡ true → a ≡ b
unfolding same_timer
same_timer_eq a b h =
    ground (arith, h, beq_iff a.id b.id, beq_iff a.path b.path, beq_iff a.gen b.gen)

pub same_timer_refl : (a : Timer) → same_timer a a ≡ true
unfolding same_timer
same_timer_refl a = rw (beq_refl a.id, beq_refl a.path, beq_refl a.gen) refl

-- A timer of another path or generation stays.
pub stop_timer-keeps :
    (t u : Timer) (timers : List Timer)
    → (t.path ≢ u.path) ⊎ (t.gen ≢ u.gen)
    → In u timers
    → In u (stop_timer t timers)
unfolding stop_timer
stop_timer-keeps t u [] other i = absurd i
stop_timer-keeps t u (x ∷ timers) other i = elim (Bool-cases (same_timer t x)) [
  | inl same ↦
      let (p, g) = same_timer_sound t x same in
      elim i [
        | inl q ↦ absurd (elim other [
          | inl n ↦ n (p ∙ ap (λ (y : Timer). y.path) (sym q))
          | inr n ↦ n (g ∙ ap (λ (y : Timer). y.gen) (sym q))
        ])
        | inr j ↦ rw (stop_timer, same) j
      ]
  | inr differ ↦
      rw (stop_timer, differ)
        (elim i [ inl q ↦ inl q | inr j ↦ inr (stop_timer-keeps t u timers other j) ])
]

-- A timer is the one that goes, or stays.
pub stop_timer-cases :
    (t u : Timer) (timers : List Timer) → In u timers → (u ≡ t) ⊎ In u (stop_timer t timers)
unfolding stop_timer
stop_timer-cases t u [] i = absurd i
stop_timer-cases t u (x ∷ timers) i = elim (Bool-cases (same_timer t x)) [
  | inl same ↦ elim i [
    | inl q ↦ inl (q ∙ sym (same_timer_eq t x same))
    | inr j ↦ inr (rw (stop_timer, same) j)
  ]
  | inr differ ↦ elim i [
    | inl q ↦ inr (rw (stop_timer, differ) (inl q))
    | inr j ↦ elim (stop_timer-cases t u timers j) [
      | inl q ↦ inl q
      | inr k ↦ inr (rw (stop_timer, differ) (inr k))
    ]
  ]
]
