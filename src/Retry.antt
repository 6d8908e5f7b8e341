-- ===== src/Retry.antt =====
-- The critical sections of uploadJobWithRetry and waitBeforeUploadRetry (internal/app/retry.go), and
-- the services they call. Opening and checking the file, the clock, the gateway, the delays between
-- attempts and the timer are the `Services`.
pub mod Attempts
pub mod Once
use telegram_uploader.Prelude.{
  ℕ, zero, suc, ◌==◌, Bool, true, false, ◌||◌, List, [], ◌∷◌, Option, none, some, String,
  str_append, if◌then◌else◌, length, get_elem?, Result, ok, err,
}
use telegram_uploader.Prelude.Int.{ℤ, pos}
use telegram_uploader.Model.{Job, JobState, VideoMetadata, Channel, Progress, uploading, cancelled}
use telegram_uploader.Queue.{find_job_index, is_runnable}
use telegram_uploader.Controller.{Controller, next, notify}
use telegram_uploader.World.{World, Persisted, failed, interfere, persist}
use telegram_uploader.Actions.{is_transferring}
use telegram_uploader.Runner.{assign_found}
use telegram_uploader.Pause.{queue_paused}
use telegram_uploader.Attempt.{
  Failure, plain_failure, paused_failure, context_failure, lost, not_runnable, job_cancelled,
  not_connected, is_retryable_upload_error, is_other_attempt, apply_progress_for_attempt,
  prepare_send_for_attempt, state_text,
}

-- Gateway.UploadVideo takes the callbacks BeforeSend and progress.
pub record Services : Type 0 where
  pub verify : ℕ → Job → Result Failure VideoMetadata
  pub now : ℕ → ℕ
  pub upload :
      Job
      → Channel
      → VideoMetadata
      → (World → World × Option Failure)
      → (Progress → World → World)
      → World
      → World × Result Failure ℤ
  pub delays : List ℕ
  pub wait : ℕ → World → Option Failure  -- after the others have acted
  pub wait_text : ℕ → ℕ → ℕ → String → String
  pub exhausted_text : ℕ → String → String

-- A job's context, and the queue's context that it is derived from.
pub record Context : Type 0 where
  pub own : ℕ
  pub queue : ℕ

abbrev pub has_context : ℕ → List ℕ → Bool
has_context k [] = false
has_context k (i ∷ is) = let rest = has_context k is in (k == i) || rest

-- ctx.Err() != nil
abbrev pub is_done : Context → World → Bool
is_done x w = has_context x.own w.cancelled || has_context x.queue w.cancelled

-- What the section that begins an attempt finds: an error, or the controller of the new attempt.
pub data Begun : Type 0 where
  declined : Failure → Begun
  begun : Controller → Begun

abbrev pub started_at_first : ℕ → ℕ → Option ℕ → Option ℕ
started_at_first zero now before = some now
started_at_first (suc i) now before = before

abbrev pub attempt_as : ℕ → VideoMetadata → ℕ → Job → Job
attempt_as retry metadata now j = record j {
  metadata = metadata;
  state = uploading;
  uploaded = pos 0;
  bytes_per_second = 0;
  started_at = started_at_first retry now j.started_at;
  error = "";
}

abbrev pub is_valid_state : ℕ → JobState → Bool
is_valid_state zero s = is_runnable s
is_valid_state (suc i) s = is_transferring s

abbrev pub invalid_state : ℕ → JobState → Failure
invalid_state retry cancelled = job_cancelled
invalid_state zero s = not_runnable
invalid_state (suc i) s = plain_failure (str_append "任务状态已变为 " (str_append (state_text s) "，停止上传"))

abbrev pub begin_at : ℕ → String → ℕ → VideoMetadata → ℕ → ℕ → Option Job → Controller → Begun
begin_at retry id cancel metadata now i none c = declined not_runnable
begin_at retry id cancel metadata now i (some j) c =
    if is_valid_state retry j.state
    then begun (
        notify (record (assign_found (some i) (attempt_as retry metadata now) c) {
          active_id = id;
          active_cancel = some cancel;
          attempt_revision = next c.attempt_revision;
          active_attempt = next c.attempt_revision;
          retry_wait_active = false;
        }))
    else declined (invalid_state retry j.state)

unfoldable pub begin_attempt : ℕ → String → ℕ → VideoMetadata → ℕ → Controller → Begun
begin_attempt retry id cancel metadata now c =
    if queue_paused c then declined paused_failure else elim (find_job_index c.jobs id) [
      | none ↦ declined not_runnable
      | some i ↦ begin_at retry id cancel metadata now i (get_elem? c.jobs i) c
    ]

-- The attempt is over, if it is still the active one.
unfoldable pub end_attempt : String → ℕ → Controller → Controller
end_attempt id attempt c =
    if is_other_attempt id attempt c then c else record c { active_attempt = 0 }

-- waitBeforeUploadRetry
abbrev pub waiting_as : String → Job → Job
waiting_as t j = record j { state = uploading; uploaded = pos 0; bytes_per_second = 0; error = t }

unfoldable pub begin_wait : String → String → Controller → Begun
begin_wait id t c =
    if queue_paused c then declined paused_failure else elim (find_job_index c.jobs id) [
      | none ↦ declined (plain_failure "上传队列在重试期间发生了变化")
      | some i ↦
          begun
            (notify (record (assign_found (some i) (waiting_as t) c) { retry_wait_active = true }))
    ]

abbrev pub end_wait : Controller → Controller
end_wait c = record c { retry_wait_active = false }
