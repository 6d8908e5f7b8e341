-- ===== src/Run.antt =====
-- Start, runQueue, failJob and removeAfterTerminalPersist of internal/app/runner.go, as steps of the
-- world. Logging is left out.
pub mod Removal
use telegram_uploader.Prelude.{
  ℕ, zero, suc, ◌==◌, Bool, true, false, not, ◌&&◌, ◌||◌, List, Option, none, some, String, str_eq,
  str_append, if◌then◌else◌, length, Result, ok, err,
}
use telegram_uploader.Prelude.Int.{ℤ, is_zero}
use telegram_uploader.Model.{Job, Channel}
use telegram_uploader.Queue.{find_job_index, filtered_jobs}
use telegram_uploader.Controller.{
  Controller, Err, queue_running, no_gateway, no_channel, nothing_runnable, storage, notify,
}
use telegram_uploader.World.{
  World, Persisted, saved, changed, failed, interfere, persist, persist_candidate,
  set_persistence_error, cancel, with_op,
}
use telegram_uploader.Runner.{
  first_runnable, start_run, undo_start, end_run, finish_active_job,
  finish_active_job_unless_pending, clear_pending_removal, next_job, end_attempts, mark_unconfirmed,
  mark_stopped, mark_failed, mark_delivered, publish_removed,
}
use telegram_uploader.Attempt.{Failure}
use telegram_uploader.Retry.{Services, Context, has_context, is_done}
use telegram_uploader.Retry.Attempts.{upload_job_with_retry}

-- A critical section: c.mu is taken, the controller changed, and c.mu released.
abbrev pub section_of : (Controller → Controller) → World → World
section_of f w = interfere (record w { ctl = f w.ctl })

-- A failed save is noted as the last error, by the caller that goes on.
abbrev pub note_unsaved : World × Persisted → World
note_unsaved (w, failed t) = set_persistence_error t (interfere w)
note_unsaved (w, _) = w

abbrev pub settle_start : Bool → ℕ → ℕ → World × Persisted → World × Result Err (Unit {0})
settle_start was_paused revision k (w, failed t) =
    let u = interfere (cancel (some k) w) in
    (record u { ctl = undo_start was_paused revision t u.ctl }, err (storage t))
settle_start was_paused revision k (w, _) = (w, ok tt)

abbrev pub has_runnable_job : List Job → Bool
has_runnable_job jobs = elim (first_runnable jobs) [ none ↦ false | some j ↦ true ]

-- Start up to the goroutine it starts, which is `run_queue`. `k` and `done` name the new context and
-- the channel.
abbrev pub start_checked : ℕ → ℕ → World → World × Result Err (Unit {0})
start_checked k done w =
    let c = start_run k done w.ctl in
    settle_start (w.ctl.paused || w.ctl.pause_requested) c.pause_revision k
      (persist (interfere (record w { ctl = c })))

abbrev pub has_run_done : Controller → Bool
has_run_done c = elim c.run_done [ none ↦ false | some k ↦ true ]

abbrev pub start_locked : ℕ → ℕ → World → World × Result Err (Unit {0})
start_locked k done w =
    if w.ctl.running || has_run_done w.ctl
    then (w, err queue_running)
    else if not w.ctl.has_gateway
    then (w, err no_gateway)
    else if is_zero w.ctl.channel.id
    then (w, err no_channel)
    else if has_runnable_job w.ctl.jobs
    then start_checked k done w
    else (w, err nothing_runnable)

unfoldable pub start : ℕ → ℕ → World → World × Result Err (Unit {0})
start k done w = with_op (start_locked k done) w

-- removeAfterTerminalPersist; `changed` is returned only where the rounds run out.
abbrev pub removal_saved :
    String
    → List Job
    → String
    → ℕ
    → World × Persisted
    → (World → World × Persisted)
    → World × Persisted
removal_saved id remaining folder revision (w, saved) again =
    let u = interfere w in
    if u.ctl.queue_revision == revision
    then (record u { ctl = publish_removed id remaining folder u.ctl }, saved)
    else again (interfere u)
removal_saved id remaining folder revision (w, changed) again = again (interfere w)
removal_saved id remaining folder revision (w, failed t) again =
    (section_of (clear_pending_removal id) (interfere w), failed t)

abbrev pub removal_round :
    String → Option ℕ → World → (World → World × Persisted) → World × Persisted
removal_round id none w again = (section_of (clear_pending_removal id) (interfere w), saved)
removal_round id (some i) w again =
    let c = w.ctl in
    let remaining = (filtered_jobs c.jobs (λ j. str_eq j.id id)).0 in
    removal_saved id remaining c.folder c.queue_revision
      (persist_candidate remaining c.channel c.paused c.queue_revision (interfere w)) again

unfoldable pub removal_loop : String → ℕ → World → World × Persisted
removal_loop id zero w = (w, changed)
removal_loop id (suc n) w = removal_round id (find_job_index w.ctl.jobs id) w (removal_loop id n)

unfoldable pub remove_after_terminal_persist : String → World → World × Persisted
remove_after_terminal_persist id w = removal_loop id (suc (length w.env)) w

-- failJob
abbrev pub fail_saved : World × Persisted → World × Option String
fail_saved (w, failed t) = (set_persistence_error t (interfere w), some t)
fail_saved (w, _) = (w, none)

unfoldable pub fail_job : String → String → World → World × Option String
fail_job id t w = fail_saved (persist (section_of (mark_failed id t) w))

-- The job is over and its state is saved: finish it, or remove it where that was asked for. The flag
-- says whether the queue goes on; an interrupted job goes on after a failed removal.
abbrev pub removed_finished : String → Bool → World × Persisted → World × Bool
removed_finished id goes_on (w, failed t) =
    (section_of (finish_active_job id) (interfere (set_persistence_error t (interfere w))), goes_on)
removed_finished id goes_on (w, _) = (section_of (finish_active_job id) (interfere w), true)

abbrev pub finish_saved : String → Bool → World → Controller × Bool → World × Bool
finish_saved id goes_on w (c, false) = (interfere (record w { ctl = c }), true)
finish_saved id goes_on w (c, true) =
    removed_finished id goes_on
      (remove_after_terminal_persist id (interfere (record w { ctl = c })))

unfoldable pub finish_terminal : String → Bool → World → World × Bool
finish_terminal id goes_on w = finish_saved id goes_on w (finish_active_job_unless_pending id w.ctl)

-- The ends of an upload. Each yields whether the queue goes on with the next job.
abbrev pub stopped_saved : Context → String → World × Persisted → World × Bool
stopped_saved x id (w, failed t) =
    let u = section_of (clear_pending_removal id) (interfere w) in
    (section_of (finish_active_job id) (interfere (set_persistence_error t u)), false)
stopped_saved x id (w, _) =
    let (u, goes_on) = finish_terminal id true (interfere w) in
    (u, goes_on && not (has_context x.queue u.cancelled))

abbrev pub failed_saved : String → World × Option String → World × Bool
failed_saved id (w, some t) =
    (section_of (finish_active_job id) (section_of (clear_pending_removal id) (interfere w)), false)
failed_saved id (w, none) = finish_terminal id false (interfere w)

abbrev pub delivered_saved : String → World × Persisted → World × Bool
delivered_saved id (w, failed t) =
    let u = section_of (clear_pending_removal id) (interfere w) in
    let text = str_append "消息已发送，但保存本地状态失败：" t in
    (section_of (λ c. notify (record c { last_error = text })) u, false)
delivered_saved id (w, _) = finish_terminal id false (interfere w)

-- uploadJobWithRetry failed. `done`, `current` and `all` say whether the job's context was cancelled
-- before end_attempts, this job was cancelled, or all were.
unfoldable pub upload_failed :
    Context → String → Bool → Bool → Bool → Failure → World → World × Bool
upload_failed x id done current all e w =
    if e.is_job_cancelled || e.is_not_runnable
    then (section_of (finish_active_job id) w, true)
    else if e.is_outcome_unknown
    then (note_unsaved (persist (section_of (mark_unconfirmed id) w)), false)
    else if e.is_persistence_lost
    then ((fail_job id e.text (section_of (clear_pending_removal id) w)).0, false)
    else if e.is_queue_paused || done || current || all || has_context x.queue w.cancelled
    then stopped_saved x id (persist (section_of (mark_stopped id (current || all)) w))
    else failed_saved id (fail_job id e.text w)

abbrev pub delivered_found : String → ℤ → Channel → ℕ → Option ℕ → World → World × Bool
delivered_found id message channel now none w = (interfere w, true)
delivered_found id message channel now (some i) w =
    delivered_saved id (persist (section_of (mark_delivered id message channel.id now) w))

-- The rest of a round of runQueue, after uploadJobWithRetry; `completed` is the time.
abbrev pub uploaded : Context → Job → Channel → ℕ → World × Result Failure ℤ → World × Bool
uploaded x job channel completed (w, r) =
    let done = is_done x w in
    let u = interfere w in
    let (c, current, all) = end_attempts job.id u.ctl in
    let v = interfere (cancel (some x.own) (record u { ctl = c })) in
    elim r [
      | ok message ↦
          delivered_found job.id message channel completed (find_job_index v.ctl.jobs job.id) v
      | err e ↦ upload_failed x job.id done current all e v
    ]

-- Rounds of runQueue, `n` at most; the contexts of the jobs are `own`, `own + 1` and so on.
abbrev pub started_job :
    Services → Context → ℕ → Option (Job × Channel) → World → (World → World) → World
started_job s x completed none w again = w
started_job s x completed (some (job, channel)) w again =
    if has_context x.queue w.cancelled
    then w
    else let (u, goes_on) =
        uploaded x job channel completed (upload_job_with_retry s x job channel w) in
      elim goes_on as (λ b. World) [ true ↦ again (interfere u) | false ↦ u ]

unfoldable pub run_loop : Services → ℕ → Context → World → World
run_loop s zero x w = w
run_loop s (suc n) x w =
    started_job s x (s.now n) (next_job w.ctl) (interfere w)
      (run_loop s n (record x { own = suc x.own }))

-- The deferred end of runQueue.
abbrev pub closed : Option ℕ → Option ℕ → Option ℕ
closed none current = current
closed (some k) none = none
closed (some k) (some i) = if i == k then none else some i

unfoldable pub run_queue : Services → ℕ → ℕ → ℕ → World → World
run_queue s n k own w =
    let done = w.ctl.run_done in
    let u = run_loop s n (record { own = own; queue = k }) (interfere w) in
    let v = note_unsaved (persist (section_of end_run u)) in
    section_of (λ c. record c { run_done = closed done c.run_done }) (cancel (some k) v)
