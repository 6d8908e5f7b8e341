-- ===== src/Tests/SchedulerTests.antt =====
-- A scheduled start at concrete sequences of requests and alarms.
use telegram_uploader.Prelude.{◌≤◌, ◌≡◌, refl, Bool, true, false, List, [], ◌∷◌, map, arith}
use telegram_uploader.Scheduler.{
  Coordinator, new_schedule_coordinator, sets, retries_now, retries_after, stops, rings, Step,
  locks, invokes, Seen, trace, new_system, set_schedule, retry_due_after, stop, fire, fire_retry,
  pick,
}
use telegram_uploader.Scheduler.Spec.{promised_trace, no_promise}
use telegram_uploader.Scheduler.Refines.{trace-promised}
use telegram_uploader.Scheduler.Calls.{count_called, stop-count}

-- The schedule is replaced, and the alarm of the first one runs all the same. Stop comes between the
-- last alarm and its callback.
abbrev replaced : List Step
replaced =
    locks (sets 5 10)
    ∷ locks (sets 6 20)
    ∷ locks (rings 1)
    ∷ invokes
    ∷ locks (rings 0)
    ∷ invokes
    ∷ locks (retries_after 3)
    ∷ locks (rings 0)
    ∷ locks stops
    ∷ invokes
    ∷ invokes
    ∷ []

calls : List Step → List Bool
calls es = map (λ (o : Seen). o.called) (trace (new_system true) es)

calls_once :
    calls replaced
    ≡ false ∷ false ∷ false ∷ false ∷ false ∷ true ∷ false ∷ false ∷ false ∷ true ∷ false ∷ []
unfolding calls trace set_schedule retry_due_after stop fire fire_retry pick
calls_once = refl

trace-promised_example : trace (new_system true) replaced ≡ promised_trace no_promise replaced
trace-promised_example = trace-promised replaced (omega arith)

abbrev waiting_start : Coordinator
waiting_start = (set_schedule 5 10 (new_schedule_coordinator true)).0

abbrev late_steps : List Step
late_steps = locks (rings 0) ∷ invokes ∷ locks (sets 1 0) ∷ locks retries_now ∷ invokes ∷ []

stop-count_example :
    count_called (trace (record { coordinator = stop waiting_start; owed = 1 }) late_steps) ≤ 1
stop-count_example = stop-count waiting_start 1 late_steps
