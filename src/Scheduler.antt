-- ===== src/Scheduler.antt =====
-- The timer of a scheduled start (internal/ui/scheduler.go). The part of an operation that holds the
-- lock is one step; the callback that it took is invoked in a later step, after the lock was
-- released, and others may come between. An alarm of time.AfterFunc runs at any later moment, once,
-- and also after its timer was stopped, since Stop comes too late for a function that has started.
-- Times are numbers, and the receiver is not nil.
pub mod Spec
pub mod Alarms
pub mod Steps
pub mod Refines
pub mod Calls
use telegram_uploader.Prelude.{
  ℕ, zero, suc, ◌+◌, ◌%◌, ◌^◌, ◌==◌, leb, Bool, true, false, not, ◌&&◌, ◌||◌, List, [], ◌∷◌, Option,
  none, some, if◌then◌else◌,
}

-- The function that a timer runs, with the generation that it was made for.
pub data Alarm : Type 0 where
  fires : ℕ → Alarm
  retries : ℕ → Alarm

-- `at` is none for the zero time. `alarms` are the functions given to time.AfterFunc that have not
-- run yet, and `timer` is the one that Stop would stop.
pub record Coordinator : Type 0 where
  pub has_callback : Bool
  pub timer : Option Alarm
  pub generation : ℕ
  pub at : Option ℕ
  pub set : Bool
  pub due : Bool
  pub stopped : Bool
  pub alarms : List Alarm

abbrev pub new_schedule_coordinator : Bool → Coordinator
new_schedule_coordinator callback = record {
  has_callback = callback;
  timer = none;
  generation = 0;
  at = none;
  set = false;
  due = false;
  stopped = false;
  alarms = [];
}

abbrev pub stop_timer_locked : Coordinator → Coordinator
stop_timer_locked c = record c { timer = none }

-- c.generation++ on a uint64.
abbrev pub next_generation : Coordinator → Coordinator
next_generation c = record c { generation = (c.generation + 1) % 2 ^ 64 }

abbrev pub after_func : Alarm → Coordinator → Coordinator
after_func a c = record c { timer = some a; alarms = a ∷ c.alarms }

-- The part of each operation that holds the lock. The Boolean says whether it leaves a callback to be
-- invoked once the lock is released.
abbrev pub start_schedule : ℕ → ℕ → Coordinator → Coordinator × Bool
start_schedule now at c =
    if leb at now
    then (record c { due = true }, c.has_callback)
    else (after_func (fires c.generation) c, false)

unfoldable pub set_schedule : ℕ → ℕ → Coordinator → Coordinator × Bool
set_schedule now at c =
    if c.stopped
    then (c, false)
    else start_schedule now at
        (record (next_generation (stop_timer_locked c)) { at = some at; set = true; due = false })

unfoldable pub cancel : Coordinator → Coordinator
cancel c = record (next_generation (stop_timer_locked c)) { at = none; set = false; due = false }

unfoldable pub hold_due : ℕ → Coordinator → Coordinator
hold_due at c =
    if c.stopped
    then c
    else record (next_generation (stop_timer_locked c)) { at = some at; set = true; due = true }

unfoldable pub retry_due : Coordinator → Coordinator × Bool
retry_due c = if c.stopped || (not c.set || not c.due) then (c, false) else (c, c.has_callback)

abbrev pub start_retry : ℕ → Coordinator → Coordinator × Bool
start_retry delay c =
    if leb delay 0 then (c, c.has_callback) else (after_func (retries c.generation) c, false)

unfoldable pub retry_due_after : ℕ → Coordinator → Coordinator × Bool
retry_due_after delay c =
    if c.stopped || (not c.set || not c.due)
    then (c, false)
    else start_retry delay (next_generation (stop_timer_locked c))

unfoldable pub cancel_retry : Coordinator → Coordinator
cancel_retry c = if not c.set || not c.due then c else next_generation (stop_timer_locked c)

unfoldable pub stop : Coordinator → Coordinator
stop c = record (next_generation (stop_timer_locked c)) { stopped = true }

unfoldable pub fire : ℕ → Coordinator → Coordinator × Bool
fire generation c =
    if c.stopped || (not (generation == c.generation) || (not c.set || c.due))
    then (c, false)
    else (record c { timer = none; due = true }, c.has_callback)

unfoldable pub fire_retry : ℕ → Coordinator → Coordinator × Bool
fire_retry generation c =
    if c.stopped || (not (generation == c.generation) || (not c.set || not c.due))
    then (c, false)
    else (record c { timer = none }, c.has_callback)

-- What the window may ask, and the run of an alarm, given by its place in `alarms`.
pub data Event : Type 0 where
  sets : ℕ → ℕ → Event
  cancels : Event
  holds : ℕ → Event
  retries_now : Event
  retries_after : ℕ → Event
  cancels_retry : Event
  stops : Event
  rings : ℕ → Event

abbrev pub run_alarm : Alarm → Coordinator → Coordinator × Bool
run_alarm (fires g) c = fire g c
run_alarm (retries g) c = fire_retry g c

abbrev pub keep : Alarm → Option (Alarm × List Alarm) → Option (Alarm × List Alarm)
keep a none = none
keep a (some (b, others)) = some (b, a ∷ others)

-- The alarm at a place, and the others.
unfoldable pub pick : ℕ → List Alarm → Option (Alarm × List Alarm)
pick n [] = none
pick zero (a ∷ rest) = some (a, rest)
pick (suc n) (a ∷ rest) = keep a (pick n rest)

abbrev pub ring_picked : Option (Alarm × List Alarm) → Coordinator → Coordinator × Bool
ring_picked none c = (c, false)
ring_picked (some (a, rest)) c = run_alarm a (record c { alarms = rest })

abbrev pub handle : Event → Coordinator → Coordinator × Bool
handle (sets now at) c = set_schedule now at c
handle cancels c = (cancel c, false)
handle (holds at) c = (hold_due at c, false)
handle retries_now c = retry_due c
handle (retries_after delay) c = retry_due_after delay c
handle cancels_retry c = (cancel_retry c, false)
handle stops c = (stop c, false)
handle (rings n) c = ring_picked (pick n c.alarms) c

-- `owed` counts the callbacks taken under the lock and not invoked yet.
pub record System : Type 0 where
  pub coordinator : Coordinator
  pub owed : ℕ

abbrev pub owe : Bool → ℕ → ℕ
owe true k = suc k
owe false k = k

-- A part that holds the lock, or the invocation of an owed callback.
pub data Step : Type 0 where
  locks : Event → Step
  invokes : Step

-- A step, and whether it invoked the callback.
abbrev pub locked_with : ℕ → Coordinator × Bool → System × Bool
locked_with owed (c, taken) = (record { coordinator = c; owed = owe taken owed }, false)

abbrev pub invoked_with : Coordinator → ℕ → System × Bool
invoked_with c zero = (record { coordinator = c; owed = zero }, false)
invoked_with c (suc k) = (record { coordinator = c; owed = k }, true)

abbrev pub take_step : Step → System → System × Bool
take_step (locks e) y = locked_with y.owed (handle e y.coordinator)
take_step invokes y = invoked_with y.coordinator y.owed

-- What is seen after a step: whether the callback was invoked, and the answer of State.
pub record Seen : Type 0 where
  pub called : Bool
  pub at : Option ℕ
  pub set : Bool
  pub due : Bool

abbrev pub seen : System × Bool → Seen
seen (y, called) = record {
  called = called;
  at = y.coordinator.at;
  set = y.coordinator.set;
  due = y.coordinator.due;
}

unfoldable pub trace : System → List Step → List Seen
trace y [] = []
trace y (e ∷ es) = let r = take_step e y in seen r ∷ trace r.0 es

abbrev pub new_system : Bool → System
new_system callback = record { coordinator = new_schedule_coordinator callback; owed = 0 }
