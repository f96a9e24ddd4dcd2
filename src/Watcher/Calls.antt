-- ===== src/Watcher/Calls.antt =====
-- When the handler is called.
use cerclbackup.Prelude.{
  ℕ, ◌+◌, ◌≤◌, ◌≡◌, refl, sym, ap, ◌∙◌, inl, inr, true, ◌&&◌, Option, none, some, List, [], ◌∷◌,
  ◌++◌, arith, if◌then◌else◌, Bool-cases, Option-cases, ◌==◌, beq_iff, nat_eq, list_eq, Text,
  lookup, erase, lookup-insert, lookup-erase,
}
use cerclbackup.Watcher.{
  Timer, PendingChange, State, Event, renewed, accept, counts, on_event, on_pop, is_current,
  on_fire, on_stop,
}
use cerclbackup.Watcher.Steps.{Reached, starts, receives, pops, fires, stops}

unfoldable pub occurrences : Text → List Text → ℕ
occurrences p [] = 0
occurrences p (q ∷ paths) = let rest = occurrences p paths in if q == p then rest + 1 else rest

-- How many of the events that count are at the path.
unfoldable pub events_at : Text → List Event → ℕ
events_at p [] = 0
events_at p (ev ∷ es) =
    let rest = events_at p es in if counts ev && (ev.path == p) then rest + 1 else rest

abbrev pub waiting : Option PendingChange → ℕ
waiting none = 0
waiting (some p) = 1

occurrences-append :
    (p q : Text) (paths : List Text)
    → occurrences p (paths ++ (q ∷ [])) ≡ occurrences p paths + (if q == p then 1 else 0)
unfolding occurrences
occurrences-append p q [] = ground arith
occurrences-append p q (x ∷ paths) = ground (arith, occurrences-append p q paths)

-- The calls at a path, and its entry, are no more than its events.
abbrev Covered : List Event → State → Type 0
Covered es s = (p : Text) → occurrences p s.called + waiting (lookup p s.timers) ≤ events_at p es

waiting-accept :
    (ev : Event) (s : State) (p : Text)
    → waiting (lookup p (accept ev s).timers)
      ≡ (if ev.path == p then 1 else waiting (lookup p s.timers))
unfolding accept
waiting-accept ev s p =
    let gen : ℕ = (renewed (lookup ev.path s.timers) s.armed).1 in
    let timer : Timer = record { id = s.next; path = ev.path; gen = gen } in
    let fresh : PendingChange = record { timer = timer; gen = gen } in
    ap waiting (lookup-insert ev.path p fresh s.timers)
    ∙ elim (Bool-cases (ev.path == p)) [ inl same ↦ rw same refl | inr other ↦ rw other refl ]

accept_called : (ev : Event) (s : State) → (accept ev s).called ≡ s.called
unfolding accept
accept_called ev s = refl

-- One more event, and at most one more entry.
on_event-Covered :
    (ev : Event) (es : List Event) (s : State) → Covered es s → Covered (ev ∷ es) (on_event ev s)
unfolding on_event events_at
on_event-Covered ev es s all p = elim (Bool-cases (counts ev)) [
  | inr quiet ↦ rw (on_event, events_at, quiet) (all p)
  | inl loud ↦
      let calls : occurrences p (accept ev s).called ≡ occurrences p s.called =
        ap (occurrences p) (accept_called ev s) in
      elim (Bool-cases (ev.path == p)) [
        | inl same ↦
            rw (on_event, events_at, loud, same)
              (omega (arith, all p, calls, rw same at (waiting-accept ev s p)))
        | inr other ↦
            rw (on_event, events_at, loud, other)
              (omega (arith, all p, calls, rw other at (waiting-accept ev s p)))
      ]
]

-- The path of a call has an entry.
current_waiting :
    (t : Timer) (s : State) (p : Text)
    → t.path ≡ p
    → is_current t.gen (lookup t.path s.timers) ≡ true
    → waiting (lookup p s.timers) ≡ 1
unfolding is_current
current_waiting t s p q current = elim (Option-cases (lookup t.path s.timers)) [
  | inl e ↦ absurd (ground (arith, current, e))
  | inr (x, e) ↦ ap (λ (y : Text). waiting (lookup y s.timers)) (sym q) ∙ ap waiting e
]

-- A call of the handler takes the entry away.
on_fire_lem :
    (t : Timer) (s : State) (p : Text)
    → occurrences p (on_fire t s).called + waiting (lookup p (on_fire t s).timers)
      ≤ occurrences p s.called + waiting (lookup p s.timers)
unfolding on_fire
on_fire_lem t s p = elim (Bool-cases (is_current t.gen (lookup t.path s.timers))) [
  | inr stale ↦ rw stale (omega arith)
  | inl current ↦
      let calls = occurrences-append p t.path s.called in
      let gone : waiting (lookup p (erase t.path s.timers))
          ≡ (if t.path == p then 0 else waiting (lookup p s.timers)) =
        ap waiting (lookup-erase t.path p s.timers)
        ∙ elim (Bool-cases (t.path == p)) [ inl same ↦ rw same refl | inr other ↦ rw other refl ] in
      let had : t.path ≡ p → waiting (lookup p s.timers) ≡ 1 =
        λ q. current_waiting t s p q current in
      rw current (elim (Bool-cases (t.path == p)) [
        | inl same ↦
            omega (arith, rw same at calls, rw same at gone, had ((beq_iff t.path p).0 same))
        | inr other ↦ omega (arith, rw other at calls, rw other at gone)
      ])
]

-- However events and timers interleave: the handler is called for a path at most as often as
-- events at the path came that run looks at, and one time less while the path has an entry.
pub Reached-Covered :
    (es : List Event) (s : State) (p : Text)
    → Reached es s
    → occurrences p s.called + waiting (lookup p s.timers) ≤ events_at p es
unfolding on_pop on_stop occurrences lookup
Reached-Covered _ _ p starts = omega arith
Reached-Covered _ _ p (receives ev es s r live) =
    on_event-Covered ev es s (λ q. Reached-Covered es s q r) p
Reached-Covered _ _ p (pops t es s r i) = Reached-Covered es s p r
Reached-Covered _ _ p (fires t es s r i) =
    omega (arith, on_fire_lem t s p, Reached-Covered es s p r)
Reached-Covered _ _ p (stops es s r) = Reached-Covered es s p r
