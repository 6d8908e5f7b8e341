-- ===== src/Attempt.antt =====
-- One upload attempt after another: prepareSendForAttempt and applyProgressForAttempt of
-- internal/app/runner.go, and internal/app/retry.go. Opening and checking the file, the gateway and
-- the retry delay are the `Services`; a failure has one flag for each error that errors.Is and
-- errors.As look for in it.
pub mod Boundary
pub mod Counters
use telegram_uploader.Prelude.{
  ℕ, zero, suc, ◌+◌, ◌==◌, Bool, true, false, not, ◌&&◌, ◌||◌, List, [], ◌∷◌, Option, none, some,
  String, str_eq, str_append, if◌then◌else◌, length, contains, get_elem?, Result, ok, err,
}
use telegram_uploader.Prelude.Int.{ℤ, pos, ltb_ℤ}
use telegram_uploader.Model.{
  Job, JobState, VideoMetadata, Channel, Progress, queued, oversize, uploading, sending, confirming,
  sent, cancelled, skipped, moving, moved, interrupted, unknown,
}
use telegram_uploader.Queue.{find_job_index, job_at, modify, is_runnable}
use telegram_uploader.Controller.{Controller, next, notify}
use telegram_uploader.World.{
  World, Persisted, saved, changed, interfere, persist, set_persistence_error,
}
use telegram_uploader.Actions.{is_transferring}
use telegram_uploader.Runner.{assign_found}
use telegram_uploader.Pause.{queue_paused}

pub record Failure : Type 0 where
  pub text : String
  pub is_outcome_unknown : Bool  -- ErrSendOutcomeUnknown
  pub is_context_cancelled : Bool  -- context.Canceled
  pub is_transport : Bool  -- ErrNotConnected, ErrUploadData, EOF, net.ErrClosed, net.Error
  pub is_queue_paused : Bool  -- errQueuePaused
  pub is_job_cancelled : Bool  -- errQueueJobCancelled
  pub is_not_runnable : Bool  -- errQueueJobNotRunnable
  pub is_persistence_lost : Bool  -- errQueuePersistenceLost

abbrev pub plain_failure : String → Failure
plain_failure t = record {
  text = t;
  is_outcome_unknown = false;
  is_context_cancelled = false;
  is_transport = false;
  is_queue_paused = false;
  is_job_cancelled = false;
  is_not_runnable = false;
  is_persistence_lost = false;
}

abbrev pub paused_failure : Failure
paused_failure = record (plain_failure "上传队列已暂停") { is_queue_paused = true }

abbrev pub context_failure : Failure
context_failure = record (plain_failure "context canceled") { is_context_cancelled = true }

-- errQueuePersistenceLost, wrapped with what could not be saved and the error of the store.
abbrev pub lost : String → String → Failure
lost what t =
    record (plain_failure (str_append "无法可靠保存上传队列状态：" (str_append what (str_append "：" t)))) {
      is_persistence_lost = true;
    }

abbrev pub not_runnable : Failure
not_runnable = record (plain_failure "上传任务已不再可运行") { is_not_runnable = true }

abbrev pub job_cancelled : Failure
job_cancelled = record (plain_failure "上传任务已取消") { is_job_cancelled = true }

abbrev pub not_connected : Failure
not_connected = record (plain_failure "尚未连接 Telegram") { is_transport = true }

-- isRetryableUploadError; `done` says whether the job's context is cancelled.
unfoldable pub is_retryable_upload_error : Bool → Failure → Bool
is_retryable_upload_error done e =
    if e.is_outcome_unknown
    then false
    else if e.is_context_cancelled
    then not done
    else e.is_transport

-- applyProgressForAttempt. The stream of progress updates is not kept.
abbrev pub progress_as : Progress → Job → Job
progress_as p j = record j { uploaded = p.bytes_done; bytes_per_second = p.bytes_per_second }

abbrev pub takes_progress : Progress → Job → Bool
takes_progress p j = is_transferring j.state && not (ltb_ℤ p.bytes_done j.uploaded)

abbrev pub progress_at : Progress → ℕ → Option Job → Controller → Controller
progress_at p i none c = c
progress_at p i (some j) c =
    if takes_progress p j then record c { jobs = modify i (progress_as p) c.jobs } else c

abbrev pub progress_found : Progress → Option ℕ → Controller → Controller
progress_found p none c = c
progress_found p (some i) c = progress_at p i (get_elem? c.jobs i) c

abbrev pub is_other_attempt : String → ℕ → Controller → Bool
is_other_attempt id attempt c = not (str_eq c.active_id id) || not (c.active_attempt == attempt)

unfoldable pub apply_progress_for_attempt : String → ℕ → Progress → Controller → Controller
apply_progress_for_attempt id attempt p c =
    if not (attempt == 0) && is_other_attempt id attempt c
    then c
    else progress_found p (find_job_index c.jobs id) c

-- What prepareSendForAttempt finds under the mutex: an error, nothing to do, or the job marked.
pub data Marked : Type 0 where
  refused : String → Marked
  already : Marked
  marked : Controller → Marked

abbrev pub sending_as : Job → Job
sending_as j = record j { state = sending; uploaded = j.size; bytes_per_second = 0 }

abbrev pub state_text : JobState → String
state_text queued = "queued"
state_text oversize = "oversize"
state_text uploading = "uploading"
state_text sending = "sending"
state_text confirming = "confirming"
state_text sent = "sent"
state_text cancelled = "cancelled"
state_text JobState.failed = "failed"
state_text skipped = "skipped"
state_text moving = "moving"
state_text moved = "moved"
state_text interrupted = "interrupted"
state_text (unknown t) = t

abbrev pub mark_state : ℕ → JobState → Controller → Marked
mark_state i uploading c = marked (notify (assign_found (some i) sending_as c))
mark_state i sending c = already
mark_state i s c = refused (str_append "消息提交前任务状态已变为 " (state_text s))

abbrev pub mark_at : ℕ → Option Job → Controller → Marked
mark_at i none c = refused "消息提交前上传队列发生了变化"
mark_at i (some j) c = mark_state i j.state c

abbrev pub mark_found : String → ℕ → Option ℕ → Controller → Marked
mark_found id attempt none c = refused "消息提交前上传队列发生了变化"
mark_found id attempt (some i) c =
    if is_other_attempt id attempt c
    then refused "消息提交前上传任务已失效"
    else mark_at i (get_elem? c.jobs i) c

unfoldable pub mark_sending : String → ℕ → Controller → Marked
mark_sending id attempt c = mark_found id attempt (find_job_index c.jobs id) c

abbrev pub settle_send : World × Persisted → World × Option Failure
settle_send (w, Persisted.failed t) =
    (set_persistence_error t (interfere w), some (lost "保存消息提交状态失败" t))
settle_send (w, _) = (w, none)

abbrev pub save_sending : Marked → World → World × Option Failure
save_sending (refused t) w = (w, some (plain_failure t))
save_sending already w = (w, none)
save_sending (marked c) w = settle_send (persist (interfere (record w { ctl = c })))

unfoldable pub prepare_send_for_attempt : String → ℕ → World → World × Option Failure
prepare_send_for_attempt id attempt w = save_sending (mark_sending id attempt w.ctl) w
