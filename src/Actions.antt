-- ===== src/Actions.antt =====
-- The operations on one job, and CancelAll (internal/app/job_actions.go).
pub mod Rollback
pub mod Steps
pub mod Acted
use telegram_uploader.Prelude.{
  ℕ, zero, suc, ◌==◌, Bool, true, false, not, ◌&&◌, ◌||◌, List, [], ◌∷◌, map, Option, none, some,
  String, str_eq, if◌then◌else◌, length, contains, Result, ok, err, get_elem?,
}
use telegram_uploader.Prelude.Int.{pos}
use telegram_uploader.Model.{
  Job, JobState, queued, uploading, sending, confirming, sent, cancelled, failed, skipped,
  interrupted,
}
use telegram_uploader.Queue.{
  find_job_index, job_at, modify, reset_progress, preserve_active_progress,
}
use telegram_uploader.Controller.{
  Controller, Err, empty_id, job_not_found, removal_pending, cannot_cancel, already_ended,
  cannot_retry, retry_active, cannot_skip, not_confirming, storage, next, notify,
}
use telegram_uploader.World.{
  World, Persisted, saved, changed, failed, interfere, persist, set_persistence_error, cancel,
  publish,
}
use telegram_uploader.Edit.{Candidate, Decision, propose, edit}

-- Assign to the job at an index, count the revision up, and notify.
abbrev pub assign_job : ℕ → (Job → Job) → String → Controller → Controller
assign_job i f last_error c = notify (record c {
  jobs = modify i f c.jobs;
  queue_revision = next c.queue_revision;
  last_error = last_error;
})

-- The restoration in persistJobMutation, if the job is still there.
abbrev pub restore : Option ℕ → Job → Controller → Controller
restore none before c = c
restore (some i) before c = assign_job i (λ j. before) c.last_error c

-- persistJobMutation after persist, by its result.
abbrev pub after_persist : String → Job → ℕ → Persisted → World → World × Result Err (Unit {0})
after_persist id before revision saved w = (w, ok tt)
after_persist id before revision changed w = (w, ok tt)
after_persist id before revision (failed t) w =
    let u = interfere w in
    let c =
      if u.ctl.queue_revision == revision
      then restore (find_job_index u.ctl.jobs id) before u.ctl
      else u.ctl in
    (set_persistence_error t (interfere (record u { ctl = c })), err (storage t))

unfoldable pub persist_job_mutation : String → Job → ℕ → World → World × Result Err (Unit {0})
persist_job_mutation id before revision w =
    let (u, r) = persist w in after_persist id before revision r u

-- A change of one job under c.mu, followed by persistJobMutation.
unfoldable pub mutate :
    String → ℕ → Job → (Job → Job) → String → World → World × Result Err (Unit {0})
unfolding persist_job_mutation
mutate id i before f last_error w =
    let c = assign_job i f last_error w.ctl in
    persist_job_mutation id before c.queue_revision (interfere (record w { ctl = c }))

-- The job with an id, and its index.
abbrev pub with_index : ℕ → Option Job → Option (ℕ × Job)
with_index i none = none
with_index i (some j) = some (i, j)

abbrev pub job_of_index : List Job → Option ℕ → Option (ℕ × Job)
job_of_index jobs none = none
job_of_index jobs (some i) = with_index i (get_elem? jobs i)

unfoldable pub lookup_job : List Job → String → Option (ℕ × Job)
lookup_job jobs id = job_of_index jobs (find_job_index jobs id)

abbrev pub is_transferring : JobState → Bool
is_transferring uploading = true
is_transferring sending = true
is_transferring _ = false

abbrev pub cancel_as : Job → Job
cancel_as j = record j { state = cancelled; error = "" }

-- The states that CancelJob and CancelAll turn into cancelled.
abbrev pub is_cancellable : JobState → Bool
is_cancellable queued = true
is_cancellable interrupted = true
is_cancellable failed = true
is_cancellable skipped = true
is_cancellable _ = false

-- The active transfer: its context is cancelled, and the runner does the rest.
abbrev pub cancel_active : String → Option ℕ → World → World × Result Err (Unit {0})
cancel_active id none w = (w, err cannot_cancel)
cancel_active id (some k) w =
    (cancel (some k) (record w { ctl = notify (record w.ctl { cancel_job_id = id }) }), ok tt)

abbrev pub cancel_found : String → ℕ × Job → World → World × Result Err (Unit {0})
cancel_found id (i, j) w =
    if contains w.ctl.pending_removal id
    then (w, err removal_pending)
    else if is_transferring j.state && str_eq w.ctl.active_id id
    then cancel_active id w.ctl.active_cancel w
    else if is_cancellable j.state
    then mutate id i j cancel_as w.ctl.last_error w
    else (w, err already_ended)

unfoldable pub cancel_job : String → World → World × Result Err (Unit {0})
cancel_job id w = if str_eq id "" then (w, err empty_id) else elim (lookup_job w.ctl.jobs id) [
  | none ↦ (w, err job_not_found)
  | some found ↦ cancel_found id found w
]

abbrev pub is_retryable : JobState → Bool
is_retryable failed = true
is_retryable interrupted = true
is_retryable cancelled = true
is_retryable skipped = true
is_retryable confirming = true
is_retryable _ = false

abbrev pub retry_as : Job → Job
retry_as j = record (reset_progress j) { state = queued }

abbrev pub retry_found : String → ℕ × Job → World → World × Result Err (Unit {0})
retry_found id (i, j) w =
    if contains w.ctl.pending_removal id
    then (w, err removal_pending)
    else if str_eq j.id w.ctl.active_id && is_transferring j.state
    then (w, err retry_active)
    else if is_retryable j.state
    then mutate id i j retry_as "" w
    else (w, err cannot_retry)

abbrev pub retry_looked_up : String → Option (ℕ × Job) → World → World × Result Err (Unit {0})
retry_looked_up id none w = (w, err job_not_found)
retry_looked_up id (some found) w = retry_found id found w

unfoldable pub retry_job : String → World → World × Result Err (Unit {0})
retry_job id w = retry_looked_up id (lookup_job w.ctl.jobs id) w

abbrev pub is_skippable : JobState → Bool
is_skippable failed = true
is_skippable confirming = true
is_skippable _ = false

abbrev pub skip_as : Job → Job
skip_as j = record j { state = skipped; error = "" }

abbrev pub skip_found : String → ℕ × Job → World → World × Result Err (Unit {0})
skip_found id (i, j) w =
    if not (str_eq j.id w.ctl.active_id) && is_skippable j.state
    then mutate id i j skip_as w.ctl.last_error w
    else (w, err cannot_skip)

unfoldable pub skip_job : String → World → World × Result Err (Unit {0})
skip_job id w =
    if contains w.ctl.pending_removal id
    then (w, err removal_pending)
    else elim (lookup_job w.ctl.jobs id) [
      | none ↦ (w, err cannot_skip)
      | some found ↦ skip_found id found w
    ]

abbrev pub is_confirming : JobState → Bool
is_confirming confirming = true
is_confirming _ = false

-- `now` is the completion time.
abbrev pub mark_as : ℕ → Job → Job
mark_as now j = record j { state = sent; uploaded = j.size; completed_at = some now; error = "" }

abbrev pub mark_found : ℕ → String → ℕ × Job → World → World × Result Err (Unit {0})
mark_found now id (i, j) w =
    if is_confirming j.state
    then mutate id i j (mark_as now) w.ctl.last_error w
    else (w, err not_confirming)

unfoldable pub mark_sent : ℕ → String → World → World × Result Err (Unit {0})
mark_sent now id w =
    if contains w.ctl.pending_removal id
    then (w, err removal_pending)
    else elim (lookup_job w.ctl.jobs id) [
      | none ↦ (w, err not_confirming)
      | some found ↦ mark_found now id found w
    ]

-- The loop of CancelAll over the snapshot.
abbrev pub cancel_waiting : Job → Job
cancel_waiting j = if is_cancellable j.state then cancel_as j else j

-- What CancelAll does under c.mu when the revision still holds; allCancel is called after Unlock.
unfoldable pub commit_cancel_all : List Job → String → Controller → Controller × Option ℕ × Unit {0}
commit_cancel_all jobs folder c = (
  notify (record (publish jobs folder c) {
    pause_revision = next c.pause_revision;
    paused = false;
    pause_requested = false;
    cancel_all_requested = true;
  }),
  c.all_cancel,
  tt,
)

unfoldable pub cancel_all_decision : Controller → Decision (Unit {0})
cancel_all_decision c =
    let jobs = map cancel_waiting c.jobs in
    propose (record {
      jobs = jobs;
      channel = c.channel;
      paused = false;
      publish = commit_cancel_all jobs c.folder;
    })

-- Between jobs the queue's context is cancelled first.
unfoldable pub cancel_all : World → World × Result Err (Unit {0})
cancel_all w =
    let early = if w.ctl.running && str_eq w.ctl.active_id "" then w.ctl.all_cancel else none in
    edit cancel_all_decision (interfere (cancel early w))
