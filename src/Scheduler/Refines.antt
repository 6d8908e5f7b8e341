-- ===== src/Scheduler/Refines.antt =====
-- The coordinator of internal/ui/scheduler.go against what a scheduled start promises.
use telegram_uploader.Prelude.{
  ℕ, zero, suc, ◌+◌, ◌^◌, ◌<◌, Bool, true, false, List, [], ◌∷◌, Option, none, ◌≡◌, inl, refl,
  arith, ap, sym, subst, length, ◌∙◌,
}
use telegram_uploader.Scheduler.{
  Alarm, Coordinator, handle, owe, locked_with, Step, locks, invokes, seen, trace, new_system,
}
use telegram_uploader.Scheduler.Spec.{
  Plan, no_plan, awaits, came, Schedule, show_plan, locked_promise, show_promised, promised_trace,
  no_promise, promised,
}
use telegram_uploader.Scheduler.Alarms.{current, Made, flags}
use telegram_uploader.Scheduler.Steps.{plan_coordinator, Expected, Tracks, Agrees, step}

shown :
    (p : Plan) (closed : Bool) (timer : Option Alarm) (g : ℕ) (alarms : List Alarm) (owed : ℕ)
    (b : Bool)
    → seen (record { coordinator = plan_coordinator p closed timer g alarms; owed = owed }, b)
      ≡ show_plan p b
shown no_plan closed timer g alarms owed b = refl
shown (awaits t) closed timer g alarms owed b = refl
shown (came t) closed timer g alarms owed b = refl

abbrev Refines : List Step → Type 0
Refines es =
    (p : Plan) (closed : Bool) (timer : Option Alarm) (g : ℕ) (alarms : List Alarm) (owed : ℕ)
    → g + length es < 2 ^ 64
    → Made g alarms
    → Expected p closed g (current g alarms)
    → trace (record { coordinator = plan_coordinator p closed timer g alarms; owed = owed }) es
      ≡ promised_trace
          (record {
            schedule = record { plan = p; closed = closed; alarms = flags g alarms };
            owed = owed;
          })
          es

abbrev Ends : List Step → ℕ → Bool → Schedule → Coordinator → Type 0
Ends es owed b s c =
    seen (record { coordinator = c; owed = owed }, b)
      ∷ trace (record { coordinator = c; owed = owed }) es
    ≡ show_plan s.plan b ∷ promised_trace (record { schedule = s; owed = owed }) es

-- Where the coordinator still implements the schedule, all that follows agrees.
go_on :
    (es : List Step) (ih : Refines es) (owed : ℕ) (b : Bool) (s : Schedule) (c : Coordinator)
    → Tracks (length es) s c
    → Ends es owed b s c
go_on es ih owed b s c (timer, g, alarms, is_c, is_s, room, made, x) =
    subst (Ends es owed b s) (sym is_c) (
      subst
        (λ (bs : List Bool).
          Ends es owed b (record { plan = s.plan; closed = s.closed; alarms = bs })
            (plan_coordinator s.plan s.closed timer g alarms))
        (sym is_s)
        (ap
            (λ o.
              o
              ∷ trace
                  (record {
                    coordinator = plan_coordinator s.plan s.closed timer g alarms;
                    owed = owed;
                  })
                  es)
            (shown s.plan s.closed timer g alarms owed b)
          ∙ ap (◌∷◌ (show_plan s.plan b)) (ih s.plan s.closed timer g alarms owed room made x)))

-- The same of a part that holds the lock.
locked :
    (es : List Step) (ih : Refines es) (owed : ℕ) (r : Schedule × Bool) (q : Coordinator × Bool)
    → Agrees (length es) r q
    → seen (locked_with owed q) ∷ trace (locked_with owed q).0 es
      ≡ show_promised (locked_promise owed r) ∷ promised_trace (locked_promise owed r).0 es
locked es ih owed (s, b) (c, d) (e, t) =
    subst
      (λ x.
        seen (locked_with owed (c, x)) ∷ trace (locked_with owed (c, x)).0 es
        ≡ show_promised (locked_promise owed (s, b))
          ∷ promised_trace (locked_promise owed (s, b)).0 es)
      (sym e) (go_on es ih (owe b owed) false s c t)

refines : (es : List Step) → Refines es
unfolding trace promised_trace
refines [] p closed timer g alarms owed room made x = refl
refines (locks e ∷ es) p closed timer g alarms owed room made x =
    locked es (refines es) owed
      (promised e (record { plan = p; closed = closed; alarms = flags g alarms }))
      (handle e (plan_coordinator p closed timer g alarms))
      (step e (length es) p closed timer g alarms room made x)
refines (invokes ∷ es) p closed timer g alarms zero room made x =
    go_on es (refines es) 0 false (record { plan = p; closed = closed; alarms = flags g alarms })
      (plan_coordinator p closed timer g alarms)
      (timer, g, alarms, refl, refl, omega (arith, room), made, x)
refines (invokes ∷ es) p closed timer g alarms (suc k) room made x =
    go_on es (refines es) k true (record { plan = p; closed = closed; alarms = flags g alarms })
      (plan_coordinator p closed timer g alarms)
      (timer, g, alarms, refl, refl, omega (arith, room), made, x)

-- The scheduled start, given a callback, keeps its promise: for every sequence of fewer than 2^64 steps (parts that hold
-- the lock, invocations of the callback after it was released, alarms of stopped timers that still
-- run), the invocations of the callback and the answers of State are exactly those of one schedule
-- whose latest alarm alone counts.
pub trace-promised :
    (es : List Step)
    → length es < 2 ^ 64
    → trace (new_system true) es ≡ promised_trace no_promise es
trace-promised es room = refines es no_plan false none 0 [] 0 (omega (arith, room)) tt (inl refl)
