-- ===== src/Sections.antt =====
-- The critical sections of the program (internal/app/runner.go, retry.go, pause.go and
-- job_actions.go) as what a goroutine does to the controller while others are between theirs.
pub mod Honest
use telegram_uploader.Prelude.{
  ℕ, zero, suc, ◌<◌, ◌+◌, ◌%◌, ◌^◌, ◌==◌, Bool, true, false, not, ◌&&◌, ◌||◌, List, [], ◌∷◌, map,
  Option, none, some, String, str_eq, ◌≡◌, ◌≢◌, refl, arith, inl, inr, if◌then◌else◌, get_elem?,
  Bool-cases, Option-cases, contains,
}
use telegram_uploader.Prelude.Int.{ℤ}
use telegram_uploader.Model.{Job, JobState, VideoMetadata, Progress, uploading, sending}
use telegram_uploader.Store.{Contents}
use telegram_uploader.Queue.{find_job_index, modify}
use telegram_uploader.Controller.{Controller, next, notify}
use telegram_uploader.World.Honest.{SameDurable, SameDurable-refl, IsHonest, settled}
use telegram_uploader.World.{Interference, publish}
use telegram_uploader.Actions.{assign_job}
use telegram_uploader.Pause.{queue_paused, request_pause, request_resume}
use telegram_uploader.Runner.{
  start_run, undo_start, end_run, finish_active_job, finish_active_job_unless_pending,
  clear_pending_removal, end_attempts, mark_unconfirmed, mark_stopped, mark_failed, mark_delivered,
  publish_removed, assign_found,
}
use telegram_uploader.Attempt.{
  apply_progress_for_attempt, mark_sending, Marked, refused, already, marked, progress_found,
  progress_at, progress_as, takes_progress, mark_at, mark_state, mark_found, is_other_attempt,
}
use telegram_uploader.Retry.{
  begin_attempt, Begun, declined, begun, begin_wait, end_wait, end_attempt, begin_at,
  is_valid_state,
}

-- Where a section may decline, the controller is left as it is.
abbrev pub of_marked : Controller → Marked → Controller
of_marked c (marked d) = d
of_marked c _ = c

abbrev pub of_begun : Controller → Begun → Controller
of_begun c (begun d) = d
of_begun c (declined e) = c

pub data Section : Type 0 where
  starts : ℕ → ℕ → Section
  undoes_start : Bool → ℕ → String → Section
  ends_run ends_wait pauses resumes : Section
  finishes finishes_unless_pending clears_pending ends_attempts unconfirms : String → Section
  stops : String → Bool → Section
  fails : String → String → Section
  delivers : String → ℤ → ℤ → ℕ → Section
  publishes_removed : String → List Job → Section
  progresses : String → ℕ → Progress → Section
  marks_sending : String → ℕ → Section
  begins_attempt : ℕ → String → ℕ → VideoMetadata → ℕ → Section
  ends_attempt : String → ℕ → Section
  begins_wait : String → String → Section
  assigns : ℕ → (Job → Job) → String → Section

abbrev pub section_act : Section → Controller → Controller
section_act (starts k done) c = start_run k done c
section_act (undoes_start p r t) c = undo_start p r t c
section_act ends_run c = end_run c
section_act ends_wait c = end_wait c
section_act pauses c = (request_pause c).0
section_act resumes c = (request_resume c).0
section_act (finishes id) c = finish_active_job id c
section_act (finishes_unless_pending id) c = (finish_active_job_unless_pending id c).0
section_act (clears_pending id) c = clear_pending_removal id c
section_act (ends_attempts id) c = (end_attempts id c).0
section_act (unconfirms id) c = mark_unconfirmed id c
section_act (stops id b) c = mark_stopped id b c
section_act (fails id t) c = mark_failed id t c
section_act (delivers id m ch now) c = mark_delivered id m ch now c
section_act (publishes_removed id js) c = publish_removed id js c.folder c
section_act (progresses id a p) c = apply_progress_for_attempt id a p c
section_act (marks_sending id a) c = of_marked c (mark_sending id a c)
section_act (begins_attempt r id k m now) c = of_begun c (begin_attempt r id k m now c)
section_act (ends_attempt id a) c = end_attempt id a c
section_act (begins_wait id t) c = of_begun c (begin_wait id t c)
section_act (assigns i f t) c = assign_job i f t c

-- A section of another goroutine, with what it does to the file and to contexts.
abbrev pub section_step : Section → (Option Contents → Option Contents) → List ℕ → Interference
section_step s store cancels = record { act = section_act s; store = store; cancels = cancels }
