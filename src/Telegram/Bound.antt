-- ===== src/Telegram/Bound.antt =====
-- How often a code binds a channel (internal/telegram/client.go).
use telegram_uploader.Prelude.{
  ℕ, suc, ◌+◌, ◌^◌, ◌≤◌, ◌<◌, Bool, ◌&&◌, List, [], ◌∷◌, Option, none, some, String, if◌then◌else◌,
  Result, ok, err, ◌≡◌, ◌⊎◌, inl, inr, refl, arith, Bool-cases, All, length,
}
use telegram_uploader.Attempt.{Failure}
use telegram_uploader.Telegram.Binding.{
  Stage, starting, validating, releasing, reporting, BindingTask, Binding, new_binding,
  begin_channel_binding, claims_validation, on_new_channel_message, is_current, task_at, run_stage,
  run_task, BindingStep, begins, receives, runs, binding_step, run_binding,
}
use telegram_uploader.Telegram.Tasks.{
  successes, to_send, decided, limit, HasCode, Adds, move_task-HasCode, drop_task-HasCode,
  task_at-HasCode, limit-le, le-limit, moved-Adds, start-quiet, decide-Adds, send-Adds,
  end_task-Adds,
}

record IsSound (g : ℕ) (b : Binding) : Type 0 where
  few : (decided g b ≡ 0) ⊎ ((decided g b ≤ 1) × (g < limit b))
  coded : All HasCode b.tasks

Adds-few :
    (g : ℕ) (b c : Binding)
    → Adds g b c
    → (decided g b ≡ 0) ⊎ ((decided g b ≤ 1) × (g < limit b))
    → (decided g c ≡ 0) ⊎ ((decided g c ≤ 1) × (g < limit c))
Adds-few g b c (inl a) (inl f) = inl (omega (arith, a.0, f))
Adds-few g b c (inl a) (inr f) = inr (omega (arith, a.0, f.0), omega (arith, a.1, f.1))
Adds-few g b c (inr a) (inl f) = inr (omega (arith, a.3, f), a.2)
Adds-few g b c (inr a) (inr f) = absurd (omega (arith, a.1, f.1))

begin-Adds :
    (g : ℕ) (r : Result Failure String) (b : Binding)
    → b.generation + 1 < 2 ^ 64
    → Adds g b (begin_channel_binding r b)
unfolding begin_channel_binding
begin-Adds g (err e) b h = inl (omega arith, omega arith)
begin-Adds g (ok code) b h =
    let c = begin_channel_binding (ok code) b in
    inl (omega arith, omega (arith, limit-le b, le-limit c, h))

message-Adds :
    (g : ℕ) (text : String) (channel : telegram_uploader.Model.Channel) (b : Binding)
    → Adds g b (on_new_channel_message text channel b)
unfolding on_new_channel_message
message-Adds g text channel b = elim (Bool-cases (claims_validation text b)) [
  | inl e ↦ simp e (inl (omega arith, omega arith))
  | inr e ↦ simp e (inl (omega arith, omega arith))
]

message-HasCode :
    (text : String) (channel : telegram_uploader.Model.Channel) (b : Binding)
    → All HasCode b.tasks
    → All HasCode (on_new_channel_message text channel b).tasks
unfolding on_new_channel_message
message-HasCode text channel b s = elim (Bool-cases (claims_validation text b)) [
  | inl e ↦ simp e (ground arith, s)
  | inr e ↦ simp e s
]

run_stage-Adds :
    (g : ℕ) (running : Bool) (result : Result Failure telegram_uploader.Model.Channel) (n : ℕ)
    (stage : Stage) (t : BindingTask) (b : Binding)
    → task_at n b.tasks ≡ some t
    → t.stage ≡ stage
    → HasCode t
    → Adds g b (run_stage running result n stage t b)
run_stage-Adds g running result n starting t b e s c =
    moved-Adds g n (if is_current t b && running then validating else releasing) t b e
      (start-quiet (is_current t b && running) g t.generation)
run_stage-Adds g running result n validating t b e s c = decide-Adds g n result t b e c
run_stage-Adds g running result n (reporting r) t b e s c = send-Adds g n running r t b e s
run_stage-Adds g running result n releasing t b e s c = end_task-Adds g n t b

run_stage-HasCode :
    (running : Bool) (result : Result Failure telegram_uploader.Model.Channel) (n : ℕ)
    (stage : Stage) (t : BindingTask) (b : Binding)
    → All HasCode b.tasks
    → All HasCode (run_stage running result n stage t b).tasks
run_stage-HasCode running result n starting t b h =
    move_task-HasCode n (if is_current t b && running then validating else releasing) b.tasks h
run_stage-HasCode running result n validating t b h = elim (Bool-cases (is_current t b)) [
  | inl e ↦ simp e (move_task-HasCode n (reporting result) b.tasks h)
  | inr e ↦ simp e (move_task-HasCode n releasing b.tasks h)
]
run_stage-HasCode running result n (reporting r) t b h = move_task-HasCode n releasing b.tasks h
run_stage-HasCode running result n releasing t b h = drop_task-HasCode n b.tasks h

-- The generation only grows, by one at most.
abbrev Later : Binding → Binding → Type 0
Later b c = (b.generation ≤ c.generation) × (c.generation ≤ b.generation + 1)

run_stage-Later :
    (running : Bool) (result : Result Failure telegram_uploader.Model.Channel) (n : ℕ)
    (stage : Stage) (t : BindingTask) (b : Binding)
    → Later b (run_stage running result n stage t b)
run_stage-Later running result n starting t b = (omega arith, omega arith)
run_stage-Later running (ok c) n validating t b = (ground arith, ground arith)
run_stage-Later running (err e) n validating t b = (ground arith, ground arith)
run_stage-Later running result n (reporting r) t b = (omega arith, omega arith)
run_stage-Later running result n releasing t b = (ground arith, ground arith)

-- A step, as far as one code is concerned.
abbrev Stays : ℕ → Binding → Binding → Type 0
Stays g b c = Adds g b c × All HasCode c.tasks × Later b c

run-Stays :
    (g : ℕ) (running : Bool) (result : Result Failure telegram_uploader.Model.Channel) (n : ℕ)
    (o : Option BindingTask) (b : Binding)
    → task_at n b.tasks ≡ o
    → All HasCode b.tasks
    → Stays g b (run_task running result n o b)
run-Stays g running result n none b e s =
    (inl (omega arith, omega arith), s, (omega arith, omega arith))
run-Stays g running result n (some t) b e s = (
  run_stage-Adds g running result n t.stage t b e refl (task_at-HasCode n t b.tasks s e),
  run_stage-HasCode running result n t.stage t b s,
  run_stage-Later running result n t.stage t b,
)

step-Stays :
    (g : ℕ) (x : BindingStep) (b : Binding)
    → b.generation + 1 < 2 ^ 64
    → All HasCode b.tasks
    → Stays g b (binding_step x b)
unfolding begin_channel_binding on_new_channel_message
step-Stays g (begins (err e)) b h s = (begin-Adds g (err e) b h, s, (omega arith, omega arith))
step-Stays g (begins (ok code)) b h s =
    (begin-Adds g (ok code) b h, s, (omega (arith, h), omega (arith, h)))
step-Stays g (receives text channel) b h s =
    (message-Adds g text channel b, message-HasCode text channel b s, (ground arith, ground arith))
step-Stays g (runs running result n) b h s =
    run-Stays g running result n (task_at n b.tasks) b refl s

run-IsSound :
    (g : ℕ) (xs : List BindingStep) (b : Binding)
    → b.generation + length xs < 2 ^ 64
    → IsSound g b
    → IsSound g (run_binding xs b) × ((run_binding xs b).generation ≤ b.generation + length xs)
unfolding run_binding
run-IsSound g [] b h s = (s, omega arith)
run-IsSound g (x ∷ xs) b h s =
    let c = binding_step x b in
    let r = step-Stays g x b (omega (arith, h)) s.coded in
    let q =
      run-IsSound g xs c (omega (arith, h, r.2.1))
        (record { few = Adds-few g b c r.0 s.few; coded = r.1 }) in
    (q.0, omega (arith, q.1, r.2.1))

new-IsSound : (g : ℕ) → IsSound g new_binding
new-IsSound g = record { few = inl refl; coded = tt }

few-le : (g : ℕ) (b : Binding) → IsSound g b → successes g b.sent ≤ 1
few-le g b s = elim s.few [ inl f ↦ omega (arith, f) | inr f ↦ omega (arith, f.0) ]

-- A code binds at most one channel: for every sequence of fewer than 2^64 requests, messages and
-- parts of tasks, in any order, at most one event of success is sent for each code.
pub run_binding-le :
    (xs : List BindingStep) (g : ℕ)
    → length xs < 2 ^ 64
    → successes g (run_binding xs new_binding).sent ≤ 1
run_binding-le xs g h =
    few-le g (run_binding xs new_binding)
      (run-IsSound g xs new_binding (omega (arith, h)) (new-IsSound g)).0

frozen :
    (g : ℕ) (xs : List BindingStep) (b : Binding)
    → b.generation + length xs < 2 ^ 64
    → g < b.generation
    → All HasCode b.tasks
    → decided g (run_binding xs b) ≤ decided g b
unfolding run_binding
frozen g [] b h l s = omega arith
frozen g (x ∷ xs) b h l s =
    let r = step-Stays g x b (omega (arith, h)) s in
    let ih =
      frozen g xs (binding_step x b) (omega (arith, h, r.2.1)) (omega (arith, l, r.2.0)) r.1 in
    elim r.0 [ inl a ↦ omega (arith, ih, a.0) | inr a ↦ absurd (omega (arith, l, a.0)) ]

-- A replaced code binds no further channel: when a newer code is handed out after the steps xs,
-- then, whatever the steps ys do, the events of success of an older code are at most those that were
-- sent before and those of the tasks that had found the code current before and were about to send.
pub begin_channel_binding-le :
    (xs ys : List BindingStep) (code : String) (g : ℕ)
    → length xs + suc (length ys) < 2 ^ 64
    → g ≤ (run_binding xs new_binding).generation
    → successes g
        (run_binding ys (begin_channel_binding (ok code) (run_binding xs new_binding))).sent
      ≤ successes g (run_binding xs new_binding).sent + to_send g (run_binding xs new_binding).tasks
unfolding begin_channel_binding
begin_channel_binding-le xs ys code g h l =
    let b = run_binding xs new_binding in
    let s = run-IsSound g xs new_binding (omega (arith, h)) (new-IsSound g) in
    let c = begin_channel_binding (ok code) b in
    omega (arith, frozen g ys c (omega (arith, h, s.1)) (omega (arith, l, h, s.1)) s.0.coded)
