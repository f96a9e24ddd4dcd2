-- ===== src/Watcher.antt =====
-- internal/watcher/watcher.go: the event loop of run, the timers that it starts, and their calls of
-- fire, as steps of one state.
pub mod Steps
pub mod Pending
pub mod Calls
pub mod Liveness
pub mod Examples
use mathlib.Core.Option
use cerclbackup.Prelude.{
  ℕ, ◌+◌, Bool, true, false, not, ◌&&◌, ◌||◌, Option, none, some, List, [], ◌∷◌, ◌++◌,
  if◌then◌else◌, ◌==◌, nat_eq, list_eq, Text, lookup, insert, erase,
}

-- One time.AfterFunc: which it is, and what its function was made with.
pub record Timer : Type 0 where
  pub id : ℕ
  pub path : Text
  pub gen : ℕ

unfoldable pub same_timer : Timer → Timer → Bool
same_timer a b = (a.id == b.id) && ((a.path == b.path) && (a.gen == b.gen))

-- pending: the timer in flight for a path, and the generation.
pub record PendingChange : Type 0 where
  pub timer : Timer
  pub gen : ℕ

-- What run and its timers share. `armed` are the timers that wait, `popped` those that have run
-- out and whose call of fire has not taken the lock yet; `called` are the paths of the
-- handler's calls so far, `watched` the directories that were added, `next` counts the timers.
pub record State : Type 0 where
  pub timers : List (Text × PendingChange)
  pub armed : List Timer
  pub popped : List Timer
  pub called : List Text
  pub watched : List Text
  pub next : ℕ
  pub stopped : Bool

abbrev pub initial : State
initial = record {
  timers = [];
  armed = [];
  popped = [];
  called = [];
  watched = [];
  next = 0;
  stopped = false;
}

-- An event of fsnotify: the clean path, and which operations it names.
pub record Event : Type 0 where
  pub path : Text
  pub creates : Bool
  pub writes : Bool
  pub renames : Bool

-- Removes the first copy of a timer.
unfoldable pub stop_timer : Timer → List Timer → List Timer
unfolding same_timer
stop_timer t [] = []
stop_timer t (u ∷ timers) =
    let rest = stop_timer t timers in if same_timer t u then timers else u ∷ rest

-- The update of a path's entry: its old timer, which is stopped, and the new generation.
unfoldable pub renewed : Option PendingChange → List Timer → List Timer × ℕ
unfolding stop_timer
renewed none armed = (armed, 0)
renewed (some p) armed = (stop_timer p.timer armed, p.gen + 1)

-- An event that counts: a new directory is watched, and the path's timer starts again.
unfoldable pub accept : Event → State → State
unfolding renewed
accept ev s =
    let watched = if ev.creates then s.watched ++ (ev.path ∷ []) else s.watched in
    let (armed, gen) = renewed (lookup ev.path s.timers) s.armed in
    let timer : Timer = record { id = s.next; path = ev.path; gen = gen } in
    record s {
      timers = insert ev.path (record { timer = timer; gen = gen }) s.timers;
      armed = timer ∷ armed;
      watched = watched;
      next = s.next + 1;
    }

-- Whether the event is one that run looks at.
unfoldable pub counts : Event → Bool
counts ev = ev.creates || (ev.writes || ev.renames)

-- The case of an event in run.
unfoldable pub on_event : Event → State → State
unfolding counts accept
on_event ev s = if not (counts ev) then s else accept ev s

-- A timer runs out.
unfoldable pub on_pop : Timer → State → State
unfolding stop_timer
on_pop t s = record s { armed = stop_timer t s.armed; popped = t ∷ s.popped }

-- Whether a generation is the one of the path's entry.
unfoldable pub is_current : ℕ → Option PendingChange → Bool
is_current gen none = false
is_current gen (some p) = p.gen == gen

-- fire(path, gen), as the function of a timer that has run out.
unfoldable pub on_fire : Timer → State → State
unfolding stop_timer is_current
on_fire t s =
    let popped = stop_timer t s.popped in
    if is_current t.gen (lookup t.path s.timers)
    then record s {
      popped = popped;
      timers = erase t.path s.timers;
      called = s.called ++ (t.path ∷ []);
    }
    else record s { popped = popped }

-- The loop over the timers when the watcher is stopped.
unfoldable pub stop_all : List (Text × PendingChange) → List Timer → List Timer
unfolding stop_timer
stop_all [] armed = armed
stop_all ((path, p) ∷ timers) armed = stop_all timers (stop_timer p.timer armed)

-- The case of Stop in run.
unfoldable pub on_stop : State → State
unfolding stop_all
on_stop s = record s { armed = stop_all s.timers s.armed; stopped = true }
