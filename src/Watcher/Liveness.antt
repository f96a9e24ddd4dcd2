-- ===== src/Watcher/Liveness.antt =====
-- From every entry the timers alone lead to a call of the handler.
use cerclbackup.Prelude.{
  ℕ, ◌≡◌, refl, sym, ap, ◌∙◌, ◌≢◌, ◌⊎◌, inl, inr, true, false, some, List, [], ◌∷◌, ◌++◌, arith,
  Bool-cases, ◌==◌, beq_iff, beq_refl, nat_eq, list_eq, Text, In, lookup, lookup-insert,
  lookup-erase,
}
use cerclbackup.Watcher.{
  Timer, PendingChange, State, Event, renewed, accept, counts, on_event, on_pop, is_current,
  on_fire,
}
use cerclbackup.Watcher.Steps.{Reached, receives, pops, fires}
use cerclbackup.Watcher.Pending.{Reached-Awaited}

-- What can happen without any event: timers run out, and their functions take the lock.
pub data Ticks : State → State → Type 0 where
  rests : (s : State) → Ticks s s
  runs_out : (t : Timer) (s s' : State) → In t s.armed → Ticks (on_pop t s) s' → Ticks s s'
  takes_lock : (t : Timer) (s s' : State) → In t s.popped → Ticks (on_fire t s) s' → Ticks s s'

is_current_lem :
    (t : Timer) (s : State) (p : PendingChange)
    → lookup t.path s.timers ≡ some p
    → p.gen ≡ t.gen
    → is_current t.gen (lookup t.path s.timers) ≡ true
unfolding is_current
is_current_lem t s p h g = ground (arith, h, g, beq_refl t.gen)

on_pop_lem :
    (t : Timer) (s : State)
    → ((on_pop t s).timers ≡ s.timers) × ((on_pop t s).called ≡ s.called) × In t (on_pop t s).popped
unfolding on_pop
on_pop_lem t s = (refl, refl, inl refl)

-- The function of a timer of the entry's generation calls the handler.
fire_calls :
    (t : Timer) (s : State) (p : PendingChange)
    → lookup t.path s.timers ≡ some p
    → p.gen ≡ t.gen
    → (on_fire t s).called ≡ s.called ++ (t.path ∷ [])
unfolding on_fire
fire_calls t s p h g = rw (is_current_lem t s p h g) refl

-- From an entry, a timer's steps lead to a call.
entry_is_handled :
    (es : List Event) (s : State) (path : Text) (p : PendingChange)
    → Reached es s
    → s.stopped ≡ false
    → lookup path s.timers ≡ some p
    → (s' : State) × Ticks s s' × (s'.called ≡ s.called ++ (path ∷ []))
entry_is_handled es s path p r live h =
    let (at, gens, place) = Reached-Awaited es s r live path p h in
    let t : Timer = p.timer in
    let found : lookup t.path s.timers ≡ some p = ap (λ (x : Text). lookup x s.timers) at ∙ h in
    let named : s.called ++ (t.path ∷ []) ≡ s.called ++ (path ∷ []) =
      ap (λ (x : Text). s.called ++ (x ∷ [])) at in
    elim place [
      | inr i ↦ (
        on_fire t s,
        takes_lock t s (on_fire t s) i (rests (on_fire t s)),
        fire_calls t s p found (sym gens) ∙ named,
      )
      | inl i ↦
          let s1 : State = on_pop t s in
          let (same, called, popped) = on_pop_lem t s in
          (
            on_fire t s1,
            runs_out t s (on_fire t s1) i
                (takes_lock t s1 (on_fire t s1) popped (rests (on_fire t s1))),
            fire_calls t s1 p (ap (lookup t.path) same ∙ found) (sym gens)
                ∙ ap (λ (c : List Text). c ++ (t.path ∷ [])) called
                ∙ named,
          )
    ]

-- `Owes path s`: run came to `s`, it has seen a change of the path, and it has not called the handler
-- with the path since.
pub data Owes (path : Text) : State → Type 0 where
  sees :
      (ev : Event) (es : List Event) (s : State)
      → Reached es s
      → s.stopped ≡ false
      → counts ev ≡ true
      → ev.path ≡ path
      → Owes path (on_event ev s)
  sees_more : (ev : Event) (s : State) → Owes path s → s.stopped ≡ false → Owes path (on_event ev s)
  still_pops : (t : Timer) (s : State) → Owes path s → In t s.armed → Owes path (on_pop t s)
  calls_other :
      (t : Timer) (s : State)
      → Owes path s
      → In t s.popped
      → (on_fire t s).called ≢ s.called ++ (path ∷ [])
      → Owes path (on_fire t s)

-- Such a state is one that run comes to.
Owes-Reached : (path : Text) (s : State) → Owes path s → (es : List Event) × Reached es s
Owes-Reached path _ (sees ev es s r live c q) = (ev ∷ es, receives ev es s r live)
Owes-Reached path _ (sees_more ev s o live) =
    let (es, r) = Owes-Reached path s o in (ev ∷ es, receives ev es s r live)
Owes-Reached path _ (still_pops t s o i) =
    let (es, r) = Owes-Reached path s o in (es, pops t es s r i)
Owes-Reached path _ (calls_other t s o i n) =
    let (es, r) = Owes-Reached path s o in (es, fires t es s r i)

abbrev HasEntry : Text → State → Type 0
HasEntry path s = (p : PendingChange) × (lookup path s.timers ≡ some p)

-- An event that counts makes an entry for its path, and every event leaves the others.
on_event-HasEntry :
    (ev : Event) (s : State) (path : Text)
    → (counts ev ≡ true) × (ev.path ≡ path) ⊎ HasEntry path s
    → HasEntry path (on_event ev s)
unfolding on_event accept
on_event-HasEntry ev s path why =
    let gen : ℕ = (renewed (lookup ev.path s.timers) s.armed).1 in
    let timer : Timer = record { id = s.next; path = ev.path; gen = gen } in
    let fresh : PendingChange = record { timer = timer; gen = gen } in
    let found = lookup-insert ev.path path fresh s.timers in
    elim (Bool-cases (counts ev)) [
      | inr quiet ↦ elim why [
        | inl both ↦ absurd (ground (arith, quiet, both.0))
        | inr (p, h) ↦ (p, rw quiet h)
      ]
      | inl loud ↦ elim (Bool-cases (ev.path == path)) [
        | inl same ↦ (fresh, rw loud (ground (arith, found, same)))
        | inr other ↦ elim why [
          | inl both ↦ absurd (ground (arith, other, (beq_iff ev.path path).1 both.1))
          | inr (p, h) ↦ (p, rw loud (ground (arith, found, other, h)))
        ]
      ]
    ]

-- A call of fire takes an entry away only with a call of the handler.
on_fire-HasEntry :
    (t : Timer) (s : State) (path : Text)
    → (on_fire t s).called ≢ s.called ++ (path ∷ [])
    → HasEntry path s
    → HasEntry path (on_fire t s)
unfolding on_fire
on_fire-HasEntry t s path silent (p, h) =
    elim (Bool-cases (is_current t.gen (lookup t.path s.timers))) [
      | inr stale ↦ (p, rw stale h)
      | inl current ↦ elim (Bool-cases (t.path == path)) [
        | inl same ↦
            let here : t.path ≡ path = (beq_iff t.path path).0 same in
            absurd (silent (rw (current, here) refl))
        | inr other ↦ (p, rw current (ground (arith, other, h, lookup-erase t.path path s.timers)))
      ]
    ]

Owes-HasEntry : (path : Text) (s : State) → Owes path s → HasEntry path s
unfolding on_pop
Owes-HasEntry path _ (sees ev es s r live c q) = on_event-HasEntry ev s path (inl (c, q))
Owes-HasEntry path _ (sees_more ev s o live) =
    on_event-HasEntry ev s path (inr (Owes-HasEntry path s o))
Owes-HasEntry path _ (still_pops t s o i) = Owes-HasEntry path s o
Owes-HasEntry path _ (calls_other t s o i n) = on_fire-HasEntry t s path n (Owes-HasEntry path s o)

-- No change is lost, however events and timers interleave: in every state that is not stopped and in
-- which a change of the path was seen since the handler's last call with it, the steps of timers
-- alone, without any further event, lead to one more call of the handler, with that path.
pub change_is_handled :
    (s : State) (path : Text)
    → Owes path s
    → s.stopped ≡ false
    → (s' : State) × Ticks s s' × (s'.called ≡ s.called ++ (path ∷ []))
change_is_handled s path o live =
    let (es, r) = Owes-Reached path s o in
    let (p, h) = Owes-HasEntry path s o in entry_is_handled es s path p r live h
