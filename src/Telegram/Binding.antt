-- ===== src/Telegram/Binding.antt =====
-- The binding of a channel (internal/telegram/client.go): BeginChannelBinding hands out a code, a
-- message with this code in a channel starts a task that checks the channel, and the task reports.
-- The client's operations on the binding run under bindingMu, in any order; a task is at the part of
-- its goroutine that comes next.
use telegram_uploader.Prelude.{
  ℕ, zero, suc, ◌+◌, ◌%◌, ◌^◌, ◌==◌, Bool, not, ◌&&◌, ◌||◌, List, [], ◌∷◌, Option, none, some,
  String, str_eq, if◌then◌else◌, Result, ok, err,
}
use telegram_uploader.Attempt.{Failure}

-- `reporting`: the answer passed the second look, and its event is not sent yet.
pub data Stage : Type 0 where
  starting validating releasing : Stage
  reporting : Result Failure telegram_uploader.Model.Channel → Stage

-- `channel` is the candidate that the message came from.
pub record BindingTask : Type 0 where
  pub expected : String
  pub generation : ℕ
  pub channel : telegram_uploader.Model.Channel
  pub stage : Stage

pub record BindingEvent : Type 0 where
  pub generation : ℕ  -- of the task that sends it
  pub result : Result Failure telegram_uploader.Model.Channel

-- `code` is "" where there is none. `sent` are the events, last first.
pub record Binding : Type 0 where
  pub code : String
  pub generation : ℕ
  pub validation_generation : ℕ
  pub tasks : List BindingTask
  pub sent : List BindingEvent

abbrev pub new_binding : Binding
new_binding = record { code = ""; generation = 0; validation_generation = 0; tasks = []; sent = [] }

-- With the code that was drawn, if there is a connection and random bytes.
unfoldable pub begin_channel_binding : Result Failure String → Binding → Binding
begin_channel_binding (err e) b = b
begin_channel_binding (ok code) b = record b {
  generation = (b.generation + 1) % 2 ^ 64;
  code = code;
}

-- `text` is the message without the white space around it.
abbrev pub claims_validation : String → Binding → Bool
claims_validation text b =
    not (str_eq b.code "" || (not (str_eq text b.code) || b.validation_generation == b.generation))

-- A message in a channel: claimBindingValidation, and the goroutine.
unfoldable pub on_new_channel_message : String → telegram_uploader.Model.Channel → Binding → Binding
on_new_channel_message text channel b =
    if claims_validation text b
    then record b {
      validation_generation = b.generation;
      tasks =
          record {
            expected = b.code;
            generation = b.generation;
            channel = channel;
            stage = starting;
          }
          ∷ b.tasks;
    }
    else b

abbrev pub is_current : BindingTask → Binding → Bool
is_current t b = str_eq b.code t.expected && b.generation == t.generation

unfoldable pub task_at : ℕ → List BindingTask → Option BindingTask
task_at n [] = none
task_at zero (t ∷ ts) = some t
task_at (suc n) (t ∷ ts) = task_at n ts

unfoldable pub move_task : ℕ → Stage → List BindingTask → List BindingTask
move_task n s [] = []
move_task zero s (t ∷ ts) = record t { stage = s } ∷ ts
move_task (suc n) s (t ∷ ts) = t ∷ move_task n s ts

unfoldable pub drop_task : ℕ → List BindingTask → List BindingTask
drop_task n [] = []
drop_task zero (t ∷ ts) = ts
drop_task (suc n) (t ∷ ts) = t ∷ drop_task n ts

-- The first look at the code; `running` says whether the client still runs.
abbrev pub start_validation : Bool → ℕ → BindingTask → Binding → Binding
start_validation running n t b = record b {
  tasks = move_task n (if is_current t b && running then validating else releasing) b.tasks;
}

abbrev pub spend_code : Result Failure telegram_uploader.Model.Channel → Binding → Binding
spend_code (ok c) b = record b { code = "" }
spend_code (err e) b = b

-- The second look under the lock, with the answer of ValidateChannel.
abbrev pub decide_binding :
    Result Failure telegram_uploader.Model.Channel → ℕ → BindingTask → Binding → Binding
decide_binding result n t b =
    if is_current t b
    then record (spend_code result b) { tasks = move_task n (reporting result) b.tasks }
    else record b { tasks = move_task n releasing b.tasks }

-- The event, after the lock was released, if it is `taken` before the client's run is done.
abbrev pub send_binding_event :
    Bool → Result Failure telegram_uploader.Model.Channel → ℕ → BindingTask → Binding → Binding
send_binding_event taken result n t b = record b {
  sent = if taken then record { generation = t.generation; result = result } ∷ b.sent else b.sent;
  tasks = move_task n releasing b.tasks;
}

-- releaseBindingValidation, deferred.
abbrev pub release_binding_validation : ℕ → Binding → Binding
release_binding_validation generation b =
    if b.validation_generation == generation then record b { validation_generation = 0 } else b

abbrev pub end_task : ℕ → BindingTask → Binding → Binding
end_task n t b = record (release_binding_validation t.generation b) { tasks = drop_task n b.tasks }

-- The next part of a task's goroutine. `running`: the client still runs, as far as the part asks.
abbrev pub run_stage :
    Bool
    → Result Failure telegram_uploader.Model.Channel
    → ℕ
    → Stage
    → BindingTask
    → Binding
    → Binding
run_stage running result n starting t b = start_validation running n t b
run_stage running result n validating t b = decide_binding result n t b
run_stage running result n (reporting decided) t b = send_binding_event running decided n t b
run_stage running result n releasing t b = end_task n t b

abbrev pub run_task :
    Bool
    → Result Failure telegram_uploader.Model.Channel
    → ℕ
    → Option BindingTask
    → Binding
    → Binding
run_task running result n none b = b
run_task running result n (some t) b = run_stage running result n t.stage t b

pub data BindingStep : Type 0 where
  begins : Result Failure String → BindingStep
  receives : String → telegram_uploader.Model.Channel → BindingStep
  runs : Bool → Result Failure telegram_uploader.Model.Channel → ℕ → BindingStep

abbrev pub binding_step : BindingStep → Binding → Binding
binding_step (begins code) b = begin_channel_binding code b
binding_step (receives text channel) b = on_new_channel_message text channel b
binding_step (runs running result n) b = run_task running result n (task_at n b.tasks) b

unfoldable pub run_binding : List BindingStep → Binding → Binding
run_binding [] b = b
run_binding (x ∷ xs) b = run_binding xs (binding_step x b)
