-- ===== src/Scheduler/Steps.antt =====
-- One step of the coordinator of internal/ui/scheduler.go against what a scheduled start promises.
use telegram_uploader.Prelude.{
  ℕ, suc, ◌+◌, ◌%◌, ◌^◌, ◌<◌, ◌==◌, ==_refl, leb, Bool, true, false, List, [], ◌∷◌, Option, none,
  some, ◌≡◌, ◌⊎◌, inl, inr, refl, arith, ap, sym, subst, Bool-cases, nil-or-pos, length,
}
use telegram_uploader.Scheduler.{
  Alarm, fires, retries, Coordinator, pick, ring_picked, run_alarm, fire, fire_retry, set_schedule,
  cancel, hold_due, retry_due, retry_due_after, cancel_retry, stop, handle, Event, sets, cancels,
  holds, retries_now, retries_after, cancels_retry, stops, rings,
}
use telegram_uploader.Scheduler.Spec.{
  Plan, no_plan, awaits, came, Schedule, silenced, rung, promised, show_plan,
}
use telegram_uploader.Scheduler.Alarms.{
  made_for, current, Made, next-lt, next-room, Made-later, current-later, same_head, PicksOne,
  pick-PicksOne, flags, flags-later, flagged, pick-flags,
}

-- The alarm that counts.
abbrev pub Armed : Plan → Bool → ℕ → List Alarm → Type 0
Armed (awaits t) false g alarms = alarms ≡ fires g ∷ []
Armed (came t) false g alarms = alarms ≡ retries g ∷ []
Armed p closed g alarms = ⊥

abbrev pub Expected : Plan → Bool → ℕ → List Alarm → Type 0
Expected p closed g alarms = (alarms ≡ []) ⊎ Armed p closed g alarms

-- A coordinator that implements a plan.
abbrev pub plan_coordinator : Plan → Bool → Option Alarm → ℕ → List Alarm → Coordinator
plan_coordinator p closed timer g alarms = record {
  has_callback = true;
  timer = timer;
  generation = g;
  at = (show_plan p false).at;
  set = (show_plan p false).set;
  due = (show_plan p false).due;
  stopped = closed;
  alarms = alarms;
}

-- A coordinator that implements a schedule, with room for n more steps before the generation wraps.
abbrev pub Tracks : ℕ → Schedule → Coordinator → Type 0
Tracks n s c =
    (timer : Option Alarm) × (g : ℕ) × (alarms : List Alarm) × (c
      ≡ plan_coordinator s.plan s.closed timer g alarms)
    × (s.alarms ≡ flags g alarms)
    × (g + n < 2 ^ 64)
    × Made g alarms
    × Expected s.plan s.closed g (current g alarms)

-- What the promise says of a step and what the coordinator does.
abbrev pub Agrees : ℕ → Schedule × Bool → Coordinator × Bool → Type 0
Agrees n (s, b) (c, called) = (called ≡ b) × Tracks n s c

module _ (n : ℕ) (timer : Option Alarm) (g : ℕ) (alarms : List Alarm) (room : g + suc n < 2 ^ 64)
    (made : Made g alarms) where
  abbrev h : ℕ
  h = (g + 1) % 2 ^ 64

  -- After a new generation no alarm counts, or only the one that is started.
  disarmed :
      (p : Plan) (closed : Bool)
      → Tracks n
          (record { plan = p; closed = closed; alarms = silenced (flags g alarms) })
          (plan_coordinator p closed none h alarms)
  disarmed p closed =
      let l = next-lt g n room in
      (
        none,
        h,
        alarms,
        refl,
        sym (flags-later g h alarms l made),
        next-room g n room,
        Made-later g h alarms l made,
        inl (current-later g h alarms l made),
      )

  armed_with :
      (a : Alarm) (p : Plan)
      → made_for a ≡ h
      → Armed p false h (a ∷ [])
      → Tracks n
          (record { plan = p; closed = false; alarms = true ∷ silenced (flags g alarms) })
          (plan_coordinator p false (some a) h (a ∷ alarms))
  armed_with a p e x =
      let l = next-lt g n room in
      (
        some a,
        h,
        a ∷ alarms,
        refl,
        simp (e, ==_refl h) (ap (◌∷◌ true) (sym (flags-later g h alarms l made))),
        next-room g n room,
        (omega (arith, e), Made-later g h alarms l made),
        inr (
            subst (Armed p false h)
              (sym (simp (e, ==_refl h) (ap (◌∷◌ a) (current-later g h alarms l made)))) x),
      )

  same :
      (p : Plan) (closed : Bool)
      → Expected p closed g (current g alarms)
      → Tracks n
          (record { plan = p; closed = closed; alarms = flags g alarms })
          (plan_coordinator p closed timer g alarms)
  same p closed x = (timer, g, alarms, refl, refl, omega (arith, room), made, x)

-- An alarm of an earlier generation is ignored.
run_alarm-stale :
    (a : Alarm) (c : Coordinator)
    → (made_for a == c.generation) ≡ false
    → run_alarm a c ≡ (c, false)
unfolding fire fire_retry
run_alarm-stale (fires k) c e = elim (Bool-cases c.stopped) [
  | inl s ↦ simp s refl
  | inr s ↦ simp (s, e) refl
]
run_alarm-stale (retries k) c e = elim (Bool-cases c.stopped) [
  | inl s ↦ simp s refl
  | inr s ↦ simp (s, e) refl
]

module _ (n : ℕ) (timer : Option Alarm) (g : ℕ) (rest : List Alarm) (room : g + suc n < 2 ^ 64)
    (made : Made g rest) where
  stale :
      (p : Plan) (closed : Bool) (a : Alarm) (bs : List Bool)
      → Expected p closed g (current g rest)
      → (made_for a == g) ≡ false
      → Agrees n
          (rung
            (some (made_for a == g, flags g rest))
            (record { plan = p; closed = closed; alarms = bs }))
          (run_alarm a (plan_coordinator p closed timer g rest))
  stale p closed a bs x e =
      let c = plan_coordinator p closed timer g rest in
      simp (run_alarm-stale a c e, e) (refl, same n timer g rest room made p closed x)

  live :
      (p : Plan) (closed : Bool) (a : Alarm) (bs : List Bool)
      → Armed p closed g (a ∷ [])
      → current g rest ≡ []
      → Agrees n
          (rung (some (true, flags g rest)) (record { plan = p; closed = closed; alarms = bs }))
          (run_alarm a (plan_coordinator p closed timer g rest))
  unfolding fire fire_retry
  live no_plan closed a bs x e = absurd x
  live (awaits t) true a bs x e = absurd x
  live (came t) true a bs x e = absurd x
  live (awaits t) false a bs x e =
      subst
        (λ b.
          Agrees n
            (rung (some (true, flags g rest))
              (record { plan = awaits t; closed = false; alarms = bs }))
            (run_alarm b (plan_coordinator (awaits t) false timer g rest)))
        (sym (same_head x))
        (simp (==_refl g) (refl, same n none g rest room made (came t) false (inl e)))
  live (came t) false a bs x e =
      subst
        (λ b.
          Agrees n
            (rung (some (true, flags g rest))
              (record { plan = came t; closed = false; alarms = bs }))
            (run_alarm b (plan_coordinator (came t) false timer g rest)))
        (sym (same_head x))
        (simp (==_refl g) (refl, same n none g rest room made (came t) false (inl e)))

Armed-one :
    (p : Plan) (closed : Bool) (g : ℕ) (alarms : List Alarm)
    → Armed p closed g alarms
    → (b : Alarm) × (alarms ≡ b ∷ []) × Armed p closed g (b ∷ [])
Armed-one no_plan closed g alarms x = absurd x
Armed-one (awaits t) false g alarms x = (fires g, x, refl)
Armed-one (awaits t) true g alarms x = absurd x
Armed-one (came t) false g alarms x = (retries g, x, refl)
Armed-one (came t) true g alarms x = absurd x

no_more : (xs ys : List Alarm) (b : Alarm) → xs ≡ b ∷ [] → length xs ≡ suc (length ys) → ys ≡ []
no_more xs ys b e l = elim (nil-or-pos ys) [
  | inl n ↦ n
  | inr n ↦ absurd (omega (arith, ap length e, l, n))
]

ring :
    (n : ℕ) (p : Plan) (closed : Bool) (timer : Option Alarm) (g : ℕ) (alarms : List Alarm)
    (o : Option (Alarm × List Alarm))
    → g + suc n < 2 ^ 64
    → Made g alarms
    → Expected p closed g (current g alarms)
    → PicksOne g alarms o
    → Agrees n
        (rung (flagged g o) (record { plan = p; closed = closed; alarms = flags g alarms }))
        (ring_picked o (plan_coordinator p closed timer g alarms))
ring n p closed timer g alarms none room made x d =
    (refl, same n timer g alarms room made p closed x)
ring n p closed timer g alarms (some (a, rest)) room made x (m, inl d) =
    stale n timer g rest room m p closed a (flags g alarms)
      (subst (Expected p closed g) (sym d.1) x) d.0
ring n p closed timer g alarms (some (a, rest)) room made (inl x) (m, inr d) =
    absurd (omega (arith, ap length x, d.1))
ring n p closed timer g alarms (some (a, rest)) room made (inr x) (m, inr d) =
    let (b, e, y) = Armed-one p closed g (current g alarms) x in
    subst
      (λ f.
        Agrees n
          (rung (some (f, flags g rest))
            (record { plan = p; closed = closed; alarms = flags g alarms }))
          (run_alarm a (plan_coordinator p closed timer g rest)))
      (sym d.0)
      (live n timer g rest room m p closed a (flags g alarms)
        (subst (λ c. Armed p closed g (c ∷ [])) (sym (d.2 b e)) y)
        (no_more (current g alarms) (current g rest) b e d.1))

pub step :
    (e : Event) (n : ℕ) (p : Plan) (closed : Bool) (timer : Option Alarm) (g : ℕ)
    (alarms : List Alarm)
    → g + suc n < 2 ^ 64
    → Made g alarms
    → Expected p closed g (current g alarms)
    → Agrees n
        (promised e (record { plan = p; closed = closed; alarms = flags g alarms }))
        (handle e (plan_coordinator p closed timer g alarms))
unfolding set_schedule cancel hold_due retry_due retry_due_after cancel_retry stop
step (sets now at) n p true timer g alarms room made x =
    (refl, same n timer g alarms room made p true x)
step (sets now at) n p false timer g alarms room made x = elim (Bool-cases (leb at now)) [
  | inl e ↦ simp e (refl, disarmed n timer g alarms room made (came at) false)
  | inr e ↦ simp e (
    refl,
    armed_with n timer g alarms room made (fires (h n timer g alarms room made)) (awaits at) refl
        refl,
  )
]
step cancels n p closed timer g alarms room made x =
    (refl, disarmed n timer g alarms room made no_plan closed)
step (holds at) n p true timer g alarms room made x =
    (refl, same n timer g alarms room made p true x)
step (holds at) n p false timer g alarms room made x =
    (refl, disarmed n timer g alarms room made (came at) false)
step retries_now n p true timer g alarms room made x =
    (refl, same n timer g alarms room made p true x)
step retries_now n no_plan false timer g alarms room made x =
    (refl, same n timer g alarms room made no_plan false x)
step retries_now n (awaits t) false timer g alarms room made x =
    (refl, same n timer g alarms room made (awaits t) false x)
step retries_now n (came t) false timer g alarms room made x =
    (refl, same n timer g alarms room made (came t) false x)
step (retries_after delay) n p true timer g alarms room made x =
    (refl, same n timer g alarms room made p true x)
step (retries_after delay) n no_plan false timer g alarms room made x =
    (refl, same n timer g alarms room made no_plan false x)
step (retries_after delay) n (awaits t) false timer g alarms room made x =
    (refl, same n timer g alarms room made (awaits t) false x)
step (retries_after delay) n (came t) false timer g alarms room made x =
    elim (Bool-cases (leb delay 0)) [
      | inl e ↦ simp e (refl, disarmed n timer g alarms room made (came t) false)
      | inr e ↦ simp e (
        refl,
        armed_with n timer g alarms room made (retries (h n timer g alarms room made)) (came t) refl
            refl,
      )
    ]
step cancels_retry n no_plan closed timer g alarms room made x =
    (refl, same n timer g alarms room made no_plan closed x)
step cancels_retry n (awaits t) closed timer g alarms room made x =
    (refl, same n timer g alarms room made (awaits t) closed x)
step cancels_retry n (came t) closed timer g alarms room made x =
    (refl, disarmed n timer g alarms room made (came t) closed)
step stops n p closed timer g alarms room made x =
    (refl, disarmed n timer g alarms room made p true)
step (rings k) n p closed timer g alarms room made x =
    subst
      (λ o.
        Agrees n (rung o (record { plan = p; closed = closed; alarms = flags g alarms }))
          (ring_picked (pick k alarms) (plan_coordinator p closed timer g alarms)))
      (sym (pick-flags g k alarms))
      (ring n p closed timer g alarms (pick k alarms) room made x (pick-PicksOne g k alarms made))
