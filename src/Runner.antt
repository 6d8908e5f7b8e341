-- ===== src/Runner.antt =====
-- The critical sections of the upload goroutine (internal/app/runner.go and retry.go): what it does
-- to the controller each time it holds c.mu.
use telegram_uploader.Prelude.{
  ℕ, ◌==◌, Bool, true, false, ◌&&◌, ◌||◌, List, [], ◌∷◌, Option, none, some, String, str_eq,
  if◌then◌else◌, contains,
}
use telegram_uploader.Prelude.Int.{ℤ}
use telegram_uploader.Model.{Job, Channel, confirming, sent, cancelled, failed, interrupted}
use telegram_uploader.Queue.{find_job_index, job_at, modify, is_runnable}
use telegram_uploader.Controller.{Controller, next, notify, delete_key}

-- hasRunnableJob and the loop of nextJob.
unfoldable pub first_runnable : List Job → Option Job
first_runnable [] = none
first_runnable (j ∷ js) =
    let rest = first_runnable js in if is_runnable j.state then some j else rest

-- An assignment to a job that was found, counted in queueRevision; without the job nothing changes.
abbrev pub assign_found : Option ℕ → (Job → Job) → Controller → Controller
assign_found none f c = c
assign_found (some i) f c = record c {
  jobs = modify i f c.jobs;
  queue_revision = next c.queue_revision;
}

-- The state under the mutex in Start, from `wasPaused` on. `k` names the new context and `done` the
-- channel runDone.
unfoldable pub start_run : ℕ → ℕ → Controller → Controller
start_run k done c =
    let d =
      if c.paused || c.pause_requested
      then record c {
        paused = false;
        pause_requested = false;
        pause_revision = next c.pause_revision;
        queue_revision = next c.queue_revision;
      }
      else c in
    notify (record d {
      running = true;
      all_cancel = some k;
      run_done = some done;
      cancel_job_id = "";
      cancel_all_requested = false;
      last_error = "";
    })

-- Start's restoration after a failed save.
unfoldable pub undo_start : Bool → ℕ → String → Controller → Controller
undo_start was_paused revision t c =
    let d = record c { running = false; all_cancel = none; run_done = none } in
    let e =
      if was_paused && (c.pause_revision == revision)
      then record d {
        paused = true;
        pause_revision = next c.pause_revision;
        queue_revision = next c.queue_revision;
      }
      else d in
    notify (record e { pause_requested = false; last_error = t })

-- The state under the mutex at the end of runQueue.
unfoldable pub end_run : Controller → Controller
end_run c = notify (record c {
  running = false;
  pause_revision = if c.pause_requested then next c.pause_revision else c.pause_revision;
  pause_requested = false;
  active_id = "";
  active_cancel = none;
  active_attempt = 0;
  retry_wait_active = false;
  all_cancel = none;
  cancel_job_id = "";
  cancel_all_requested = false;
})

-- clearActiveJobLocked
abbrev pub clear_active_job : String → Controller → Controller
clear_active_job id c = record c {
  active_id = "";
  active_cancel = none;
  active_attempt = 0;
  retry_wait_active = false;
  cancel_job_id = if str_eq c.cancel_job_id id then "" else c.cancel_job_id;
}

unfoldable pub finish_active_job : String → Controller → Controller
finish_active_job id c = if str_eq c.active_id id then notify (clear_active_job id c) else c

unfoldable pub finish_active_job_unless_pending : String → Controller → Controller × Bool
finish_active_job_unless_pending id c =
    if str_eq c.active_id id
    then if contains c.pending_removal id
      then (c, true)
      else (notify (clear_active_job id c), false)
    else (c, false)

unfoldable pub clear_pending_removal : String → Controller → Controller
clear_pending_removal id c =
    if contains c.pending_removal id
    then notify (record c { pending_removal = delete_key id c.pending_removal })
    else c

unfoldable pub next_job : Controller → Option (Job × Channel)
next_job c =
    if c.paused || c.pause_requested
    then none
    else elim (first_runnable c.jobs) [ none ↦ none | some j ↦ some (j, c.channel) ]

-- The section of runQueue after uploadJobWithRetry; also cancelCurrent and cancelAll.
unfoldable pub end_attempts : String → Controller → Controller × Bool × Bool
end_attempts id c =
    let current = str_eq c.cancel_job_id id in
    (
      record c {
        active_cancel = none;
        active_attempt = 0;
        retry_wait_active = false;
        cancel_job_id = if current then "" else c.cancel_job_id;
      },
      current,
      c.cancel_all_requested,
    )

-- The job's new values, as the ends of an upload write them.
abbrev pub unknown_text : String
unknown_text = "消息可能已经送达；请先检查频道，再选择“已发送”或“重试”"

abbrev pub unconfirmed : Job → Job
unconfirmed j = record j { state = confirming; bytes_per_second = 0; error = unknown_text }

abbrev pub stopped_as : Bool → Bool → Job → Job
stopped_as true paused j = record j { state = cancelled; error = ""; bytes_per_second = 0 }
stopped_as false paused j = record j {
  state = interrupted;
  error = if paused then "队列已暂停，可重新开始当前任务" else "程序关闭或连接中断，可重新开始上传";
  bytes_per_second = 0;
}

abbrev pub failed_as : Bool → String → Job → Job
failed_as true t j = record j { state = cancelled; error = ""; bytes_per_second = 0 }
failed_as false t j = record j { state = failed; error = t; bytes_per_second = 0 }

abbrev pub delivered : ℤ → ℤ → ℕ → Job → Job
delivered message channel now j = record j {
  state = sent;
  uploaded = j.size;
  message_id = message;
  channel_id = channel;
  completed_at = some now;
  error = "";
}

-- An upload whose outcome is unknown.
abbrev note_unconfirmed : Option ℕ → Controller → Controller
note_unconfirmed none c = c
note_unconfirmed (some i) c = record c {
  jobs = modify i unconfirmed c.jobs;
  last_error = unknown_text;
}

unfoldable pub mark_unconfirmed : String → Controller → Controller
mark_unconfirmed id c =
    let d = note_unconfirmed (find_job_index c.jobs id) c in
    notify (record d {
      pending_removal = delete_key id d.pending_removal;
      queue_revision = next d.queue_revision;
    })

-- An upload that was cancelled or interrupted.
abbrev notify_found : Option ℕ → Controller → Controller
notify_found none c = c
notify_found (some i) c = notify c

unfoldable pub mark_stopped : String → Bool → Controller → Controller
mark_stopped id by_user c =
    let r = find_job_index c.jobs id in
    notify_found r (assign_found r (stopped_as by_user (c.paused || c.pause_requested)) c)

-- The section of failJob. The state of the job that was found decides, with the requests to cancel.
abbrev is_cancelled : Option Job → Bool
is_cancelled none = false
is_cancelled (some j) = elim j.state as (λ s. Bool) [ cancelled ↦ true | _ ↦ false ]

abbrev note_failed : Option ℕ → Bool → String → Controller → Controller
note_failed none gone t c = record c { last_error = t }
note_failed (some i) gone t c = record (assign_found (some i) (failed_as gone t) c) {
  last_error = if gone then "" else t;
}

unfoldable pub mark_failed : String → String → Controller → Controller
mark_failed id t c =
    let r = find_job_index c.jobs id in
    let gone =
      is_cancelled (job_at c.jobs r) || c.cancel_all_requested || str_eq c.cancel_job_id id in
    notify (note_failed r gone t c)

-- An upload that Telegram confirmed.
unfoldable pub mark_delivered : String → ℤ → ℤ → ℕ → Controller → Controller
mark_delivered id message channel now c =
    let r = find_job_index c.jobs id in
    notify_found r (assign_found r (delivered message channel now) c)

-- The publication in removeAfterTerminalPersist, when the revision still holds.
abbrev emptied : List Job → String → String
emptied [] folder = ""
emptied (j ∷ js) folder = folder

unfoldable pub publish_removed : String → List Job → String → Controller → Controller
publish_removed id remaining folder c = notify (record c {
  jobs = remaining;
  pending_removal = delete_key id c.pending_removal;
  folder = emptied remaining folder;
  queue_revision = next c.queue_revision;
  last_error = "";
})
