-- ===== src/Tests/BindingTests.antt =====
-- Bindings of channels for concrete messages.
use telegram_uploader.Prelude.{◌+◌, ◌≤◌, ◌≡◌, refl, true, List, [], ◌∷◌, String, Result, ok, arith}
use telegram_uploader.Attempt.{Failure}
use telegram_uploader.Telegram.Binding.{
  BindingStep, begins, receives, runs, run_binding, new_binding, begin_channel_binding,
  on_new_channel_message, task_at, move_task, drop_task,
}
use telegram_uploader.Telegram.Tasks.{successes, to_send}
use telegram_uploader.Telegram.Bound.{run_binding-le, begin_channel_binding-le}
use telegram_uploader.Tests.Samples.{videos}

abbrev code : Result Failure String
code = ok "A"

-- A message starts a task, which checks the channel, decides, and sends only later.
abbrev first_code : List BindingStep
first_code =
    begins code
    ∷ receives "A" videos
    ∷ receives "A" videos
    ∷ runs true (ok videos) 0
    ∷ runs true (ok videos) 0
    ∷ []

-- The second code: both tasks come to their end.
abbrev second_code : List BindingStep
second_code =
    receives "B" videos
    ∷ runs true (ok videos) 1
    ∷ runs true (ok videos) 0
    ∷ runs true (ok videos) 0
    ∷ runs true (ok videos) 0
    ∷ receives "B" videos
    ∷ []

abbrev both_codes : List BindingStep
both_codes =
    begins code ∷ receives "A" videos ∷ runs true (ok videos) 0 ∷ begins (ok "B") ∷ second_code

waits_to_send : to_send 1 (run_binding first_code new_binding).tasks ≡ 1
unfolding run_binding begin_channel_binding on_new_channel_message task_at move_task drop_task
waits_to_send = refl

binds_the_second : successes 2 (run_binding both_codes new_binding).sent ≡ 1
unfolding run_binding begin_channel_binding on_new_channel_message task_at move_task drop_task
binds_the_second = refl

run_binding-le_example : successes 2 (run_binding both_codes new_binding).sent ≤ 1
run_binding-le_example = run_binding-le both_codes 2 (omega arith)

has_begun : 1 ≤ (run_binding first_code new_binding).generation
unfolding run_binding begin_channel_binding on_new_channel_message task_at move_task drop_task
has_begun = omega arith

begin_channel_binding-le_example :
    successes 1
      (run_binding second_code
        (begin_channel_binding (ok "B") (run_binding first_code new_binding))).sent
    ≤ successes 1 (run_binding first_code new_binding).sent
      + to_send 1 (run_binding first_code new_binding).tasks
begin_channel_binding-le_example =
    begin_channel_binding-le first_code second_code "B" 1 (omega arith) has_begun
