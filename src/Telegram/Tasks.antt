-- ===== src/Telegram/Tasks.antt =====
-- What the parts of a task do for the binding of a channel (internal/telegram/client.go).
use telegram_uploader.Prelude.{
  ℕ, zero, suc, ◌+◌, ◌≤◌, ◌<◌, ◌==◌, ==_iff, Bool, true, false, ◌&&◌, List, [], ◌∷◌, some, str_eq,
  eq_iff, if◌then◌else◌, Result, ok, err, ◌≡◌, ◌⊎◌, inl, inr, refl, ap, subst, ◌∙◌, arith,
  Bool-cases, All,
}
use telegram_uploader.Attempt.{Failure}
use telegram_uploader.Telegram.Binding.{
  Stage, starting, validating, releasing, reporting, BindingTask, BindingEvent, Binding, is_current,
  task_at, move_task, drop_task, spend_code, decide_binding, send_binding_event, end_task,
}

-- One for a success of the code with generation g.
abbrev pub success : ℕ → ℕ → Result Failure telegram_uploader.Model.Channel → ℕ
success g generation (ok c) = if generation == g then 1 else 0
success g generation (err e) = 0

-- The events of success of a code.
abbrev pub successes : ℕ → List BindingEvent → ℕ
successes g [] = 0
successes g (e ∷ es) = success g e.generation e.result + successes g es

abbrev pub success_to_send : ℕ → ℕ → Stage → ℕ
success_to_send g generation (reporting result) = success g generation result
success_to_send g generation starting = 0
success_to_send g generation validating = 0
success_to_send g generation releasing = 0

-- The tasks that found the code current and are about to send its success.
abbrev pub to_send : ℕ → List BindingTask → ℕ
to_send g [] = 0
to_send g (t ∷ ts) = success_to_send g t.generation t.stage + to_send g ts

abbrev pub decided : ℕ → Binding → ℕ
decided g b = successes g b.sent + to_send g b.tasks

-- A code that binds no more, since it has done so or since there is none, counts itself.
abbrev pub limit : Binding → ℕ
limit b = if str_eq b.code "" then suc b.generation else b.generation

abbrev pub HasCode : BindingTask → Type 0
HasCode t = str_eq t.expected "" ≡ false

-- What one step does for a code: it binds no channel, or it binds one and was the current code.
abbrev pub Adds : ℕ → Binding → Binding → Type 0
Adds g b c =
    ((decided g c ≤ decided g b) × (limit b ≤ limit c))
    ⊎ ((g ≡ b.generation) × (limit b ≤ g) × (g < limit c) × (decided g c ≤ suc (decided g b)))

move_task-to_send :
    (g n : ℕ) (s : Stage) (t : BindingTask) (ts : List BindingTask)
    → task_at n ts ≡ some t
    → to_send g (move_task n s ts) + success_to_send g t.generation t.stage
      ≡ to_send g ts + success_to_send g t.generation s
unfolding task_at move_task
move_task-to_send g n s t [] e = absurd (cc e)
move_task-to_send g zero s t (x ∷ ts) e =
    let q : x ≡ t = cc e in
    subst
      (λ y.
        success_to_send g x.generation s + to_send g ts + success_to_send g y.generation y.stage
        ≡ success_to_send g x.generation x.stage + to_send g ts + success_to_send g y.generation s)
      q (omega arith)
move_task-to_send g (suc n) s t (x ∷ ts) e = omega (arith, move_task-to_send g n s t ts e)

drop_task-to_send : (g n : ℕ) (ts : List BindingTask) → to_send g (drop_task n ts) ≤ to_send g ts
unfolding drop_task
drop_task-to_send g n [] = omega arith
drop_task-to_send g zero (t ∷ ts) = omega arith
drop_task-to_send g (suc n) (t ∷ ts) = omega (arith, drop_task-to_send g n ts)

pub move_task-HasCode :
    (n : ℕ) (s : Stage) (ts : List BindingTask) → All HasCode ts → All HasCode (move_task n s ts)
unfolding move_task
move_task-HasCode n s [] h = tt
move_task-HasCode zero s (t ∷ ts) h = (h.0, h.1)
move_task-HasCode (suc n) s (t ∷ ts) h = (h.0, move_task-HasCode n s ts h.1)

pub drop_task-HasCode :
    (n : ℕ) (ts : List BindingTask) → All HasCode ts → All HasCode (drop_task n ts)
unfolding drop_task
drop_task-HasCode n [] h = tt
drop_task-HasCode zero (t ∷ ts) h = h.1
drop_task-HasCode (suc n) (t ∷ ts) h = (h.0, drop_task-HasCode n ts h.1)

pub task_at-HasCode :
    (n : ℕ) (t : BindingTask) (ts : List BindingTask)
    → All HasCode ts
    → task_at n ts ≡ some t
    → HasCode t
unfolding task_at
task_at-HasCode n t [] h e = absurd (cc e)
task_at-HasCode zero t (x ∷ ts) h e = let q : x ≡ t = cc e in subst HasCode q h.0
task_at-HasCode (suc n) t (x ∷ ts) h e = task_at-HasCode n t ts h.1 e

pub limit-le : (b : Binding) → limit b ≤ suc b.generation
limit-le b = ground arith

pub le-limit : (b : Binding) → b.generation ≤ limit b
le-limit b = ground arith

and_left : (a b : Bool) → (a && b) ≡ true → a ≡ true
and_left true b h = refl
and_left false b h = h

and_right : (a b : Bool) → (a && b) ≡ true → b ≡ true
and_right true b h = h
and_right false b h = absurd (cc h)

limit-current : (b : Binding) (g : ℕ) → str_eq b.code "" ≡ false → b.generation ≡ g → limit b ≤ g
limit-current b g c q = simp c (omega (arith, q))

-- Nothing is bound by a step that only moves a task to a stage that reports no success.
pub moved-Adds :
    (g n : ℕ) (s : Stage) (t : BindingTask) (b : Binding)
    → task_at n b.tasks ≡ some t
    → success_to_send g t.generation s ≡ 0
    → Adds g b (record b { tasks = move_task n s b.tasks })
moved-Adds g n s t b e z = inl (omega (arith, move_task-to_send g n s t b.tasks e, z), omega arith)

pub start-quiet :
    (c : Bool) (g generation : ℕ)
    → success_to_send g generation (if c then validating else releasing) ≡ 0
start-quiet true g generation = refl
start-quiet false g generation = refl

decided-current :
    (g n : ℕ) (result : Result Failure telegram_uploader.Model.Channel) (t : BindingTask)
    (b : Binding)
    → task_at n b.tasks ≡ some t
    → str_eq b.code "" ≡ false
    → b.generation ≡ t.generation
    → Adds g b (record (spend_code result b) { tasks = move_task n (reporting result) b.tasks })
decided-current g n (err x) t b e c q =
    inl (omega (arith, move_task-to_send g n (reporting (err x)) t b.tasks e), omega arith)
decided-current g n (ok x) t b e c q =
    let m = move_task-to_send g n (reporting (ok x)) t b.tasks e in
    elim (Bool-cases (t.generation == g)) [
      | inl h ↦
          let k = (==_iff t.generation g).0 h in
          let z : success g t.generation (ok x) ≡ 1 = simp h refl in
          inr (
            omega (arith, k, q),
            limit-current b g c (q ∙ k),
            omega (arith, q, k),
            omega (arith, m, z),
          )
      | inr h ↦
          let z : success g t.generation (ok x) ≡ 0 = simp h refl in
          inl (omega (arith, m, z), limit-le b)
    ]

pub decide-Adds :
    (g n : ℕ) (result : Result Failure telegram_uploader.Model.Channel) (t : BindingTask)
    (b : Binding)
    → task_at n b.tasks ≡ some t
    → HasCode t
    → Adds g b (decide_binding result n t b)
decide-Adds g n result t b e c = elim (Bool-cases (is_current t b)) [
  | inl h ↦
      let code : b.code ≡ t.expected =
        (eq_iff b.code t.expected).0
          (and_left (str_eq b.code t.expected) (b.generation == t.generation) h) in
      let generation =
        (==_iff b.generation t.generation).0
          (and_right (str_eq b.code t.expected) (b.generation == t.generation) h) in
      simp h (decided-current g n result t b e (ap (λ x. str_eq x "") code ∙ c) generation)
  | inr h ↦ simp h (moved-Adds g n releasing t b e refl)
]

pub send-Adds :
    (g n : ℕ) (taken : Bool) (result : Result Failure telegram_uploader.Model.Channel)
    (t : BindingTask) (b : Binding)
    → task_at n b.tasks ≡ some t
    → t.stage ≡ reporting result
    → Adds g b (send_binding_event taken result n t b)
send-Adds g n false result t b e s = moved-Adds g n releasing t b e refl
send-Adds g n true result t b e s = inl (
  omega (arith, move_task-to_send g n releasing t b.tasks e, ap (success_to_send g t.generation) s),
  omega arith,
)

pub end_task-Adds : (g n : ℕ) (t : BindingTask) (b : Binding) → Adds g b (end_task n t b)
end_task-Adds g n t b = elim (Bool-cases (b.validation_generation == t.generation)) [
  | inl e ↦ simp e (inl (omega (arith, drop_task-to_send g n b.tasks), omega arith))
  | inr e ↦ simp e (inl (omega (arith, drop_task-to_send g n b.tasks), omega arith))
]
