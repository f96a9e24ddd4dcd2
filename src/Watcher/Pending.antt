-- ===== src/Watcher/Pending.antt =====
-- No change is lost: every path that waits has a timer on its way.
use cerclbackup.Prelude.{
  ℕ, ◌≡◌, refl, sym, ap, ◌∙◌, subst, ◌≢◌, ◌⊎◌, inl, inr, false, Option, none, some, List, arith,
  Bool-cases, ◌==◌, beq_iff, beq_refl, nat_eq, list_eq, Text, In, lookup, lookup-insert,
  lookup-erase,
}
use cerclbackup.Watcher.{
  Timer, PendingChange, State, Event, stop_timer, renewed, accept, counts, on_event, on_pop,
  is_current, on_fire, on_stop,
}
use cerclbackup.Watcher.Steps.{
  Reached, starts, receives, pops, fires, stops, stop_timer-keeps, stop_timer-cases,
}

-- Every entry stands for a timer of its path and generation that waits or has run out.
abbrev pub Awaited : State → Text → PendingChange → Type 0
Awaited s path p =
    (p.timer.path ≡ path) × (p.timer.gen ≡ p.gen) × (In p.timer s.armed ⊎ In p.timer s.popped)

abbrev pub AllAwaited : State → Type 0
AllAwaited s = (path : Text) (p : PendingChange) → lookup path s.timers ≡ some p → Awaited s path p

-- The old timer of a path that is renewed is the only one that may go.
renewed-keeps :
    (known : Option PendingChange) (u : Timer) (armed : List Timer)
    → ((p : PendingChange) → known ≡ some p → p.timer.path ≢ u.path)
    → In u armed
    → In u (renewed known armed).0
unfolding renewed
renewed-keeps none u armed other i = i
renewed-keeps (some p) u armed other i = stop_timer-keeps p.timer u armed (inl (other p refl)) i

accept-AllAwaited : (ev : Event) (s : State) → AllAwaited s → AllAwaited (accept ev s)
unfolding accept
accept-AllAwaited ev s all path p h =
    let gen : ℕ = (renewed (lookup ev.path s.timers) s.armed).1 in
    let timer : Timer = record { id = s.next; path = ev.path; gen = gen } in
    let fresh : PendingChange = record { timer = timer; gen = gen } in
    elim (Bool-cases (ev.path == path)) [
      | inl same ↦
          let here : p ≡ fresh =
            ground (arith, h, same, lookup-insert ev.path path fresh s.timers) in
          subst (Awaited (accept ev s) path) (sym here)
            ((beq_iff ev.path path).0 same, refl, inl (inl refl))
      | inr other ↦
          let old : lookup path s.timers ≡ some p =
            ground (arith, h, other, lookup-insert ev.path path fresh s.timers) in
          let (at, gens, place) = all path p old in
          let differ : ev.path ≢ path =
            λ q. absurd (ground (arith, other, (beq_iff ev.path path).1 q)) in
          (
            at,
            gens,
            elim place [
              | inl i ↦ inl (
                  inr (
                    renewed-keeps (lookup ev.path s.timers) p.timer s.armed
                      (λ known q r.
                        let (back, _, _) = all ev.path known q in differ (sym back ∙ r ∙ at))
                      i))
              | inr i ↦ inr i
            ],
          )
    ]

on_event-AllAwaited : (ev : Event) (s : State) → AllAwaited s → AllAwaited (on_event ev s)
unfolding on_event
on_event-AllAwaited ev s all = elim (Bool-cases (counts ev)) [
  | inr quiet ↦ rw quiet all
  | inl loud ↦ rw loud (accept-AllAwaited ev s all)
]

-- A timer that runs out is on its way still.
on_pop-AllAwaited : (t : Timer) (s : State) → AllAwaited s → AllAwaited (on_pop t s)
unfolding on_pop
on_pop-AllAwaited t s all path p h =
    let (at, gens, place) = all path p h in
    (
      at,
      gens,
      elim place [
        | inl i ↦ elim (stop_timer-cases t p.timer s.armed i) [
          | inl same ↦ inr (inl same)
          | inr j ↦ inl j
        ]
        | inr i ↦ inr (inr i)
      ],
    )

stays :
    (t : Timer) (s : State) (path : Text) (p : PendingChange)
    → Awaited s path p
    → (t.path ≢ path) ⊎ (t.gen ≢ p.gen)
    → In p.timer s.armed ⊎ In p.timer (stop_timer t s.popped)
stays t s path p (at, gens, place) other = elim place [
  | inl i ↦ inl i
  | inr i ↦ inr (
      stop_timer-keeps t p.timer s.popped
        (elim other [ inl n ↦ inl (λ q. n (q ∙ at)) | inr n ↦ inr (λ q. n (q ∙ gens)) ]) i)
]

-- The generation of an entry that a call of fire finds out of date.
stale_lem :
    (t : Timer) (s : State) (path : Text) (p : PendingChange)
    → is_current t.gen (lookup t.path s.timers) ≡ false
    → lookup path s.timers ≡ some p
    → (t.path ≢ path) ⊎ (t.gen ≢ p.gen)
unfolding is_current
stale_lem t s path p stale h = elim (Bool-cases (t.path == path)) [
  | inr other ↦ inl (λ q. absurd (ground (arith, other, (beq_iff t.path path).1 q)))
  | inl same ↦
      let here : lookup t.path s.timers ≡ some p =
        ap (λ (x : Text). lookup x s.timers) ((beq_iff t.path path).0 same) ∙ h in
      inr (λ q. absurd (ground (arith, stale, here, q, beq_refl p.gen)))
]

-- A call of fire leaves the timers of all other entries, and of its own path if it is out of date.
on_fire-AllAwaited : (t : Timer) (s : State) → AllAwaited s → AllAwaited (on_fire t s)
unfolding on_fire
on_fire-AllAwaited t s all = elim (Bool-cases (is_current t.gen (lookup t.path s.timers))) [
  | inl current ↦ rw current (λ path p h.
      let other : t.path ≢ path = λ q.
        absurd (ground (arith, h, lookup-erase t.path path s.timers, (beq_iff t.path path).1 q)) in
      let old : lookup path s.timers ≡ some p =
        ground (arith, h, lookup-erase t.path path s.timers) in
      let (at, gens, place) = all path p old in
      (at, gens, stays t s path p (at, gens, place) (inl other)))
  | inr stale ↦ rw stale (λ path p h.
      let (at, gens, place) = all path p h in
      (at, gens, stays t s path p (at, gens, place) (stale_lem t s path p stale h)))
]

on_pop-stopped : (t : Timer) (s : State) → (on_pop t s).stopped ≡ s.stopped
unfolding on_pop
on_pop-stopped t s = refl

pub on_fire-stopped : (t : Timer) (s : State) → (on_fire t s).stopped ≡ s.stopped
unfolding on_fire
on_fire-stopped t s = ground arith

-- In every state that run comes to, however its events and timers interleave, before it is
-- stopped: each path that has an entry has a timer of that path and of the entry's generation that
-- waits or has run out, so that no change that was seen is lost.
pub Reached-Awaited :
    (es : List Event) (s : State)
    → Reached es s
    → s.stopped ≡ false
    → (path : Text) (p : PendingChange) → lookup path s.timers ≡ some p
    → Awaited s path p
unfolding on_stop lookup
Reached-Awaited _ _ starts live = λ path p h. absurd (ground (arith, h))
Reached-Awaited _ _ (receives ev es s r live0) live =
    on_event-AllAwaited ev s (Reached-Awaited es s r live0)
Reached-Awaited _ _ (pops t es s r i) live =
    on_pop-AllAwaited t s (Reached-Awaited es s r (sym (on_pop-stopped t s) ∙ live))
Reached-Awaited _ _ (fires t es s r i) live =
    on_fire-AllAwaited t s (Reached-Awaited es s r (sym (on_fire-stopped t s) ∙ live))
Reached-Awaited _ _ (stops es s r) live = absurd (ground (arith, live))
