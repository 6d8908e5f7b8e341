-- ===== src/Scheduler/Spec.antt =====
-- What the scheduled start promises (internal/ui/scheduler.go): one schedule, and alarms of which one
-- at most still counts. There are no timers and no generations.
use telegram_uploader.Prelude.{
  ℕ, zero, suc, leb, Bool, true, false, not, ◌&&◌, ◌||◌, List, [], ◌∷◌, Option, none, some,
  if◌then◌else◌,
}
use telegram_uploader.Scheduler.{
  Event, sets, cancels, holds, retries_now, retries_after, cancels_retry, stops, rings, Step, locks,
  invokes, owe, Seen,
}

-- No schedule, a time that is awaited, or a time that has come.
pub data Plan : Type 0 where
  no_plan : Plan
  awaits : ℕ → Plan
  came : ℕ → Plan

-- `alarms`: for each alarm that has not rung yet, newest first, whether it still counts.
pub record Schedule : Type 0 where
  pub plan : Plan
  pub closed : Bool
  pub alarms : List Bool

abbrev pub no_schedule : Schedule
no_schedule = record { plan = no_plan; closed = false; alarms = [] }

abbrev pub has_come : Plan → Bool
has_come no_plan = false
has_come (awaits t) = false
has_come (came t) = true

abbrev pub plan_comes : Plan → Plan
plan_comes no_plan = no_plan
plan_comes (awaits t) = came t
plan_comes (came t) = came t

-- No alarm counts any more.
abbrev pub silenced : List Bool → List Bool
silenced [] = []
silenced (b ∷ bs) = false ∷ silenced bs

abbrev pub keep_flag : Bool → Option (Bool × List Bool) → Option (Bool × List Bool)
keep_flag b none = none
keep_flag b (some (d, others)) = some (d, b ∷ others)

abbrev pub pick_flag : ℕ → List Bool → Option (Bool × List Bool)
pick_flag n [] = none
pick_flag zero (b ∷ rest) = some (b, rest)
pick_flag (suc n) (b ∷ rest) = keep_flag b (pick_flag n rest)

-- An alarm that counts makes the time come and leaves a callback to be invoked. Another does nothing.
abbrev pub rung : Option (Bool × List Bool) → Schedule → Schedule × Bool
rung none s = (s, false)
rung (some (true, rest)) s = (record s { plan = plan_comes s.plan; alarms = rest }, true)
rung (some (false, rest)) s = (record s { alarms = rest }, false)

-- What an event makes of the schedule, and whether it leaves a callback to be invoked.
abbrev pub promised : Event → Schedule → Schedule × Bool
promised (sets now at) s =
    if s.closed
    then (s, false)
    else if leb at now
    then (record s { plan = came at; alarms = silenced s.alarms }, true)
    else (record s { plan = awaits at; alarms = true ∷ silenced s.alarms }, false)
promised cancels s = (record s { plan = no_plan; alarms = silenced s.alarms }, false)
promised (holds at) s =
    if s.closed
    then (s, false)
    else (record s { plan = came at; alarms = silenced s.alarms }, false)
promised retries_now s = (s, not s.closed && has_come s.plan)
promised (retries_after delay) s =
    if s.closed || not (has_come s.plan)
    then (s, false)
    else if leb delay 0
    then (record s { alarms = silenced s.alarms }, true)
    else (record s { alarms = true ∷ silenced s.alarms }, false)
promised cancels_retry s =
    (if has_come s.plan then record s { alarms = silenced s.alarms } else s, false)
promised stops s = (record s { closed = true; alarms = silenced s.alarms }, false)
promised (rings n) s = rung (pick_flag n s.alarms) s

abbrev pub show_plan : Plan → Bool → Seen
show_plan no_plan b = record { called = b; at = none; set = false; due = false }
show_plan (awaits t) b = record { called = b; at = some t; set = true; due = false }
show_plan (came t) b = record { called = b; at = some t; set = true; due = true }

-- A schedule, and the callbacks that are still to be invoked.
pub record Promise : Type 0 where
  pub schedule : Schedule
  pub owed : ℕ

abbrev pub no_promise : Promise
no_promise = record { schedule = no_schedule; owed = 0 }

abbrev pub locked_promise : ℕ → Schedule × Bool → Promise × Bool
locked_promise owed (s, taken) = (record { schedule = s; owed = owe taken owed }, false)

abbrev pub invoked_promise : Schedule → ℕ → Promise × Bool
invoked_promise s zero = (record { schedule = s; owed = zero }, false)
invoked_promise s (suc k) = (record { schedule = s; owed = k }, true)

abbrev pub promised_step : Step → Promise → Promise × Bool
promised_step (locks e) y = locked_promise y.owed (promised e y.schedule)
promised_step invokes y = invoked_promise y.schedule y.owed

abbrev pub show_promised : Promise × Bool → Seen
show_promised (y, b) = show_plan y.schedule.plan b

-- The one sequence of observations that the promise allows.
unfoldable pub promised_trace : Promise → List Step → List Seen
promised_trace y [] = []
promised_trace y (e ∷ es) = let r = promised_step e y in show_promised r ∷ promised_trace r.0 es
