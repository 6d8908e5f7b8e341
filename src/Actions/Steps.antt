-- ===== src/Actions/Steps.antt =====
-- CancelJob, Retry, Skip and MarkSent of internal/app/job_actions.go as steps of a job's state.
use telegram_uploader.Prelude.{
  ℕ, true, false, List, ◌∷◌, Option, none, some, String, ◌≡◌, arith, ap, Result, ok, err, get_elem?,
  contains,
}
use telegram_uploader.Model.{
  Job, JobState, queued, confirming, sent, cancelled, failed, skipped, interrupted,
}
use telegram_uploader.Queue.{find_job_index, modify, reset_progress}
use telegram_uploader.Controller.{Err}
use telegram_uploader.World.Rounds.{IsOnDisk}
use telegram_uploader.World.{World}
use telegram_uploader.Actions.{
  with_index, job_of_index, lookup_job, cancel_job, retry_job, skip_job, mark_sent, retry_as,
  is_cancellable, is_retryable, is_skippable, is_confirming,
}

pub data Action : Type 0 where
  cancels retries skips : Action
  marks_sent : ℕ → Action

abbrev pub perform : Action → String → World → World × Result Err (Unit {0})
perform cancels id w = cancel_job id w
perform retries id w = retry_job id w
perform skips id w = skip_job id w
perform (marks_sent now) id w = mark_sent now id w

-- The edges of the state diagram that the user can take.
pub data Allowed : Action → JobState → JobState → Type 0 where
  cancel_queued : Allowed cancels queued cancelled
  cancel_interrupted : Allowed cancels interrupted cancelled
  cancel_failed : Allowed cancels failed cancelled
  cancel_skipped : Allowed cancels skipped cancelled
  retry_failed : Allowed retries failed queued
  retry_interrupted : Allowed retries interrupted queued
  retry_cancelled : Allowed retries cancelled queued
  retry_skipped : Allowed retries skipped queued
  retry_confirming : Allowed retries confirming queued
  skip_failed : Allowed skips failed skipped
  skip_confirming : Allowed skips confirming skipped
  mark_confirming : {now : ℕ} → Allowed (marks_sent now) confirming sent

-- The job keeps what identifies it, to the user and to Telegram.
pub record SameJob (j k : Job) : Type 0 where
  pub id : k.id ≡ j.id
  pub random_id : k.random_id ≡ j.random_id
  pub path : k.path ≡ j.path
  pub name : k.name ≡ j.name
  pub size : k.size ≡ j.size
  pub mod_time : k.mod_time ≡ j.mod_time
  pub position : k.position ≡ j.position

-- How an action on the job `id` may end: refused or rolled back, with the jobs as they were; the
-- context of the active transfer cancelled; or one job changed along an edge, and saved.
pub data Acted (a : Action) (id : String) (w : World) : World × Result Err (Unit {0}) → Type 0 where
  unchanged : {u : World} {e : Err} → u.ctl.jobs ≡ w.ctl.jobs → Acted a id w (u, err e)
  signalled :
      {u : World} {k : ℕ}
      → a ≡ cancels
      → w.ctl.active_id ≡ id
      → w.ctl.active_cancel ≡ some k
      → u.ctl.jobs ≡ w.ctl.jobs
      → u.ctl.cancel_job_id ≡ id
      → u.cancelled ≡ k ∷ w.cancelled
      → Acted a id w (u, ok tt)
  stepped :
      {u : World} (i : ℕ) (j k : Job)
      → find_job_index w.ctl.jobs id ≡ some i
      → get_elem? w.ctl.jobs i ≡ some j
      → Allowed a j.state k.state
      → SameJob j k
      → contains w.ctl.pending_removal id ≡ false
      → u.ctl.jobs ≡ modify i (λ x. k) w.ctl.jobs
      → IsOnDisk u
      → Acted a id w (u, ok tt)

pub cancel_edge : (s : JobState) → is_cancellable s ≡ true → Allowed cancels s cancelled
cancel_edge s h = grind (arith, cancel_queued, cancel_interrupted, cancel_failed, cancel_skipped)

pub retry_edge : (s : JobState) → is_retryable s ≡ true → Allowed retries s queued
retry_edge s h =
    grind (arith, retry_failed, retry_interrupted, retry_cancelled, retry_skipped, retry_confirming)

pub skip_edge : (s : JobState) → is_skippable s ≡ true → Allowed skips s skipped
skip_edge s h = grind (arith, skip_failed, skip_confirming)

pub mark_edge : (now : ℕ) (s : JobState) → is_confirming s ≡ true → Allowed (marks_sent now) s sent
mark_edge now s h = grind (arith, λ (n : ℕ). mark_confirming {now = n})

with_index-some :
    (n : ℕ) (o : Option Job) {i : ℕ} {j : Job}
    → with_index n o ≡ some (i, j)
    → (n ≡ i) × (o ≡ some j)
with_index-some n o e = ground arith

job_of_index-some :
    (js : List Job) (r : Option ℕ) {i : ℕ} {j : Job}
    → job_of_index js r ≡ some (i, j)
    → (r ≡ some i) × (get_elem? js i ≡ some j)
job_of_index-some js none e = cc
job_of_index-some js (some n) e =
    let (same, there) = with_index-some n (get_elem? js n) e in (ap some same, rw same at there)

pub lookup_job-found :
    (id : String) (js : List Job) {i : ℕ} {j : Job}
    → lookup_job js id ≡ some (i, j)
    → (find_job_index js id ≡ some i) × (get_elem? js i ≡ some j)
unfolding lookup_job
lookup_job-found id js e = job_of_index-some js (find_job_index js id) e

pub retry_as-SameJob : (j : Job) → SameJob j (retry_as j)
unfolding reset_progress
retry_as-SameJob j = ground arith
