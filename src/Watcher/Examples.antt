-- ===== src/Watcher/Examples.antt =====
-- Two saves of one file: the first timer has run out when the second save comes.
use cerclbackup.Prelude.{
  ◌+◌, ◌≤◌, ◌≡◌, refl, inl, true, false, some, [], ◌∷◌, ◌++◌, nat_eq, list_beq, list_eq, Text, text,
  lookup, insert, erase,
}
use cerclbackup.Watcher.{
  Timer, same_timer, PendingChange, State, initial, Event, stop_timer, renewed, accept, counts,
  on_event, on_pop, is_current, on_fire,
}
use cerclbackup.Watcher.Steps.{Reached, starts, receives, pops}
use cerclbackup.Watcher.Calls.{occurrences, events_at, waiting, Reached-Covered}
use cerclbackup.Watcher.Liveness.{Ticks, Owes, sees, change_is_handled}

abbrev file : Text
file = text "f"

abbrev save : Event
save = record { path = file; creates = false; writes = true; renames = false }

abbrev first : Timer
first = record { id = 0; path = file; gen = 0 }

abbrev second : Timer
second = record { id = 1; path = file; gen = 1 }

abbrev change : PendingChange
change = record { timer = second; gen = 1 }

abbrev raced : State
raced = on_event save (on_pop first (on_event save initial))

raced_reached : Reached (save ∷ save ∷ []) raced
unfolding on_event on_pop counts accept renewed lookup insert stop_timer
raced_reached =
    receives save (save ∷ []) (on_pop first (on_event save initial))
      (pops first (save ∷ []) (on_event save initial) (receives save [] initial starts refl)
        (inl refl))
      refl

raced_waits : lookup file raced.timers ≡ some change
unfolding on_event on_pop counts accept renewed lookup insert stop_timer list_beq
raced_waits = refl

raced_live : raced.stopped ≡ false
unfolding on_event on_pop counts accept renewed lookup insert stop_timer
raced_live = refl

Reached-Covered_example :
    occurrences file raced.called + waiting (lookup file raced.timers)
    ≤ events_at file (save ∷ save ∷ [])
Reached-Covered_example = Reached-Covered (save ∷ save ∷ []) raced file raced_reached

raced-Owes : Owes file raced
unfolding on_event on_pop counts accept renewed lookup insert stop_timer
raced-Owes =
    sees save (save ∷ []) (on_pop first (on_event save initial))
      (pops first (save ∷ []) (on_event save initial) (receives save [] initial starts refl)
        (inl refl))
      refl refl refl

change_is_handled_example :
    (s' : State) × Ticks raced s' × (s'.called ≡ raced.called ++ (file ∷ []))
change_is_handled_example = change_is_handled raced file raced-Owes raced_live

-- The first timer's function, which comes late, calls nothing; the second's does.
late_call : (on_fire second (on_pop second (on_fire first raced))).called ≡ file ∷ []
unfolding on_event on_pop on_fire is_current counts accept renewed lookup insert erase stop_timer
    same_timer list_beq
late_call = refl
