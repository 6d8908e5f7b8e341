-- ===== src/Scheduler/Calls.antt =====
-- The callback of a scheduled start once its coordinator was stopped (internal/ui/scheduler.go).
use telegram_uploader.Prelude.{
  ℕ, zero, suc, ◌+◌, ◌≤◌, Bool, true, false, List, [], ◌∷◌, Option, none, some, ◌≡◌, refl, arith,
  subst, sym,
}
use telegram_uploader.Scheduler.{
  Alarm, fires, retries, Coordinator, pick, ring_picked, fire, fire_retry, set_schedule, cancel,
  hold_due, retry_due, retry_due_after, cancel_retry, stop, handle, Event, sets, cancels, holds,
  retries_now, retries_after, cancels_retry, stops, rings, System, locked_with, Step, locks,
  invokes, Seen, trace,
}

abbrev one_if : Bool → ℕ
one_if true = 1
one_if false = 0

-- How often the callback was invoked.
abbrev pub count_called : List Seen → ℕ
count_called [] = 0
count_called (o ∷ os) = one_if o.called + count_called os

ring-stopped :
    (o : Option (Alarm × List Alarm)) (c : Coordinator)
    → c.stopped ≡ true
    → ((ring_picked o c).0.stopped ≡ true) × ((ring_picked o c).1 ≡ false)
unfolding fire fire_retry
ring-stopped none c h = (h, refl)
ring-stopped (some (fires g, rest)) c h = simp h (refl, refl)
ring-stopped (some (retries g, rest)) c h = simp h (refl, refl)

handle-stopped :
    (e : Event) (c : Coordinator)
    → c.stopped ≡ true
    → ((handle e c).0.stopped ≡ true) × ((handle e c).1 ≡ false)
unfolding set_schedule cancel hold_due retry_due retry_due_after cancel_retry stop fire fire_retry
handle-stopped (sets now at) c h = simp h (refl, refl)
handle-stopped cancels c h = (h, refl)
handle-stopped (holds at) c h = simp h (refl, refl)
handle-stopped retries_now c h = simp h (refl, refl)
handle-stopped (retries_after delay) c h = simp h (refl, refl)
handle-stopped cancels_retry c h = ground arith
handle-stopped stops c h = (refl, refl)
handle-stopped (rings n) c h = ring-stopped (pick n c.alarms) c h

abbrev Bounded : List Step → System → Type 0
Bounded es y = count_called (trace y es) ≤ y.owed

-- A part that holds the lock takes no callback any more.
few_locked :
    (es : List Step) (owed : ℕ) (q : Coordinator × Bool)
    → ((c : Coordinator) → c.stopped ≡ true → Bounded es (record { coordinator = c; owed = owed }))
    → q.0.stopped ≡ true
    → q.1 ≡ false
    → count_called (trace (locked_with owed q).0 es) ≤ owed
few_locked es owed (c, d) ih h e =
    subst (λ x. count_called (trace (locked_with owed (c, x)).0 es) ≤ owed) (sym e) (ih c h)

few_calls :
    (es : List Step) (c : Coordinator) (owed : ℕ)
    → c.stopped ≡ true
    → Bounded es (record { coordinator = c; owed = owed })
unfolding trace
few_calls [] c owed h = omega arith
few_calls (locks e ∷ es) c owed h =
    let r = handle-stopped e c h in
    omega (arith, few_locked es owed (handle e c) (λ d k. few_calls es d owed k) r.0 r.1)
few_calls (invokes ∷ es) c zero h = omega (arith, few_calls es c 0 h)
few_calls (invokes ∷ es) c (suc k) h = omega (arith, few_calls es c k h)

-- After Stop no callback is taken: whatever is asked then and whichever alarms still run, the
-- callback is invoked at most as often as it had been taken, and not invoked yet, when Stop ran.
pub stop-count :
    (c : Coordinator) (owed : ℕ) (es : List Step)
    → count_called (trace (record { coordinator = stop c; owed = owed }) es) ≤ owed
unfolding stop
stop-count c owed es = few_calls es (stop c) owed refl
