-- ===== src/Sections/Honest.antt =====
-- Which critical sections keep to the rule of queueRevision (internal/app/controller.go).
use telegram_uploader.Prelude.{
  ℕ, zero, suc, ◌==◌, Bool, not, ◌&&◌, ◌||◌, List, [], ◌∷◌, map, Option, none, some, String, ◌≡◌,
  ◌≢◌, refl, arith, inl, inr, get_elem?, Bool-cases, Option-cases,
}
use telegram_uploader.Prelude.Int.{ℤ}
use telegram_uploader.Model.{Job, JobState, VideoMetadata, Progress}
use telegram_uploader.Store.{Contents}
use telegram_uploader.Queue.{find_job_index, modify}
use telegram_uploader.Controller.{Controller, next}
use telegram_uploader.World.Honest.{SameDurable, SameDurable-refl, IsHonest, settled}
use telegram_uploader.Pause.{queue_paused, request_pause, request_resume}
use telegram_uploader.Runner.{
  start_run, undo_start, end_run, finish_active_job, finish_active_job_unless_pending,
  clear_pending_removal, end_attempts, mark_unconfirmed, mark_stopped, mark_failed, mark_delivered,
  publish_removed,
}
use telegram_uploader.Attempt.{
  apply_progress_for_attempt, mark_sending, progress_found, progress_at, progress_as, mark_at,
  mark_state, mark_found, is_other_attempt,
}
use telegram_uploader.Retry.{begin_attempt, begin_wait, end_attempt, begin_at, is_valid_state}
use telegram_uploader.Sections.{
  Section, starts, undoes_start, ends_run, ends_wait, pauses, resumes, finishes,
  finishes_unless_pending, clears_pending, ends_attempts, unconfirms, stops, fails, delivers,
  publishes_removed, progresses, marks_sending, begins_attempt, ends_attempt, begins_wait, assigns,
  section_act, section_step, of_marked, of_begun,
}

next-ne : (n : ℕ) → next n ≢ n
next-ne n e = omega arith

record Kept (c d : Controller) : Type 0 where
  pub revised : d.queue_revision ≡ c.queue_revision → SameDurable c d
  pub keeps_store : d.has_store ≡ c.has_store

Kept-refl : (c : Controller) → Kept c c
Kept-refl c = record { revised = λ e. SameDurable-refl c; keeps_store = refl }

-- A controller whose revision was counted up.
counted :
    {c d : Controller}
    → d.queue_revision ≡ next c.queue_revision
    → d.has_store ≡ c.has_store
    → Kept c d
counted {c} {d} e s = record {
  revised = λ q. absurd (ground (arith, next-ne c.queue_revision));
  keeps_store = s;
}

-- A controller whose durable part is untouched.
volatile :
    {c d : Controller}
    → d.jobs ≡ c.jobs
    → d.channel ≡ c.channel
    → d.folder ≡ c.folder
    → d.paused ≡ c.paused
    → d.active_id ≡ c.active_id
    → d.has_store ≡ c.has_store
    → Kept c d
volatile {c} {d} a b e f g s = ground arith

start_run-Kept : (k done : ℕ) (c : Controller) → Kept c (start_run k done c)
unfolding start_run
start_run-Kept k done c = ground (arith, next-ne c.queue_revision)

undo_start-Kept : (p : Bool) (r : ℕ) (t : String) (c : Controller) → Kept c (undo_start p r t c)
unfolding undo_start
undo_start-Kept p r t c = ground (arith, next-ne c.queue_revision)

end_run-Kept : (c : Controller) → Kept c (end_run c)
unfolding end_run
end_run-Kept c = ground arith

finish-Kept : (id : String) (c : Controller) → Kept c (finish_active_job id c)
unfolding finish_active_job
finish-Kept id c = ground arith

pause-Kept : (c : Controller) → Kept c (request_pause c).0
unfolding request_pause
pause-Kept c = ground (arith, next-ne c.queue_revision)

resume-Kept : (c : Controller) → Kept c (request_resume c).0
unfolding request_resume
resume-Kept c = ground (arith, next-ne c.queue_revision)

unless_pending-Kept :
    (id : String) (c : Controller) → Kept c (finish_active_job_unless_pending id c).0
unfolding finish_active_job_unless_pending
unless_pending-Kept id c = ground arith

clear_pending_removal-Kept : (id : String) (c : Controller) → Kept c (clear_pending_removal id c)
unfolding clear_pending_removal
clear_pending_removal-Kept id c = ground arith

end_attempts-Kept : (id : String) (c : Controller) → Kept c (end_attempts id c).0
unfolding end_attempts
end_attempts-Kept id c = ground arith

mark_unconfirmed-Kept : (id : String) (c : Controller) → Kept c (mark_unconfirmed id c)
unfolding mark_unconfirmed
mark_unconfirmed-Kept id c = elim (Option-cases (find_job_index c.jobs id)) [
  | inl e ↦ simp e (counted refl refl)
  | inr (i, e) ↦ simp e (counted refl refl)
]

mark_stopped-Kept : (id : String) (b : Bool) (c : Controller) → Kept c (mark_stopped id b c)
unfolding mark_stopped
mark_stopped-Kept id b c = elim (Option-cases (find_job_index c.jobs id)) [
  | inl e ↦ simp e (Kept-refl c)
  | inr (i, e) ↦ simp e (counted refl refl)
]

mark_delivered-Kept :
    (id : String) (m ch : ℤ) (now : ℕ) (c : Controller) → Kept c (mark_delivered id m ch now c)
unfolding mark_delivered
mark_delivered-Kept id m ch now c = elim (Option-cases (find_job_index c.jobs id)) [
  | inl e ↦ simp e (Kept-refl c)
  | inr (i, e) ↦ simp e (counted refl refl)
]

mark_failed-Kept : (id t : String) (c : Controller) → Kept c (mark_failed id t c)
unfolding mark_failed
mark_failed-Kept id t c = elim (Option-cases (find_job_index c.jobs id)) [
  | inl e ↦ simp e (volatile refl refl refl refl refl refl)
  | inr (i, e) ↦ simp e (counted refl refl)
]

end_attempt-Kept : (id : String) (a : ℕ) (c : Controller) → Kept c (end_attempt id a c)
unfolding end_attempt
end_attempt-Kept id a c = ground arith

begin_wait-Kept : (id t : String) (c : Controller) → Kept c (of_begun c (begin_wait id t c))
unfolding begin_wait
begin_wait-Kept id t c = elim (Option-cases (find_job_index c.jobs id)) [
  | inl e ↦ simp e (ground arith)
  | inr (i, e) ↦ simp e (ground (arith, next-ne c.queue_revision))
]

publish_removed-Kept :
    (id : String) (js : List Job) (folder : String) (c : Controller)
    → Kept c (publish_removed id js folder c)
unfolding publish_removed
publish_removed-Kept id js folder c = counted refl refl

modify-settled :
    (f : Job → Job)
    → ((j : Job) → settled (f j) ≡ settled j)
    → (i : ℕ) (js : List Job) → map settled (modify i f js) ≡ map settled js
unfolding modify
modify-settled f h i [] = refl
modify-settled f h zero (j ∷ js) = cc (h j)
modify-settled f h (suc i) (j ∷ js) = cc (modify-settled f h i js)

progress_at-Kept :
    (p : Progress) (i : ℕ) (o : Option Job) (c : Controller) → Kept c (progress_at p i o c)
progress_at-Kept p i none c = Kept-refl c
progress_at-Kept p i (some j) c =
    let same = modify-settled (progress_as p) (λ x. refl) i c.jobs in ground arith

progress_found-Kept : (p : Progress) (r : Option ℕ) (c : Controller) → Kept c (progress_found p r c)
progress_found-Kept p none c = Kept-refl c
progress_found-Kept p (some i) c = progress_at-Kept p i (get_elem? c.jobs i) c

progress-Kept :
    (id : String) (a : ℕ) (p : Progress) (c : Controller)
    → Kept c (apply_progress_for_attempt id a p c)
unfolding apply_progress_for_attempt
progress-Kept id a p c = elim (Bool-cases (not (a == 0) && is_other_attempt id a c)) [
  | inl e ↦ simp e (Kept-refl c)
  | inr e ↦ simp e (progress_found-Kept p (find_job_index c.jobs id) c)
]

mark_state-Kept : (i : ℕ) (s : JobState) (c : Controller) → Kept c (of_marked c (mark_state i s c))
mark_state-Kept i s c = ground (arith, next-ne c.queue_revision)

mark_at-Kept : (i : ℕ) (o : Option Job) (c : Controller) → Kept c (of_marked c (mark_at i o c))
mark_at-Kept i none c = Kept-refl c
mark_at-Kept i (some j) c = mark_state-Kept i j.state c

mark_found-Kept :
    (id : String) (a : ℕ) (r : Option ℕ) (c : Controller)
    → Kept c (of_marked c (mark_found id a r c))
mark_found-Kept id a none c = Kept-refl c
mark_found-Kept id a (some i) c = elim (Bool-cases (is_other_attempt id a c)) [
  | inl o ↦ simp o (Kept-refl c)
  | inr o ↦ simp o (mark_at-Kept i (get_elem? c.jobs i) c)
]

mark_sending-Kept :
    (id : String) (a : ℕ) (c : Controller) → Kept c (of_marked c (mark_sending id a c))
unfolding mark_sending
mark_sending-Kept id a c = mark_found-Kept id a (find_job_index c.jobs id) c

begin_at-Kept :
    (r : ℕ) (id : String) (k : ℕ) (m : VideoMetadata) (now i : ℕ) (o : Option Job) (c : Controller)
    → Kept c (of_begun c (begin_at r id k m now i o c))
begin_at-Kept r id k m now i none c = Kept-refl c
begin_at-Kept r id k m now i (some j) c = elim (Bool-cases (is_valid_state r j.state)) [
  | inl e ↦ simp e (counted refl refl)
  | inr e ↦ simp e (Kept-refl c)
]

begin_attempt-Kept :
    (r : ℕ) (id : String) (k : ℕ) (m : VideoMetadata) (now : ℕ) (c : Controller)
    → Kept c (of_begun c (begin_attempt r id k m now c))
unfolding begin_attempt queue_paused
begin_attempt-Kept r id k m now c = elim (Bool-cases (c.paused || c.pause_requested)) [
  | inl e ↦ simp e (Kept-refl c)
  | inr e ↦ elim (Option-cases (find_job_index c.jobs id)) [
    | inl f ↦ simp (e, f) (Kept-refl c)
    | inr (i, f) ↦ simp (e, f) (begin_at-Kept r id k m now i (get_elem? c.jobs i) c)
  ]
]

section-Kept : (s : Section) (c : Controller) → Kept c (section_act s c)
section-Kept (starts k done) c = start_run-Kept k done c
section-Kept (undoes_start p r t) c = undo_start-Kept p r t c
section-Kept ends_run c = end_run-Kept c
section-Kept ends_wait c = volatile refl refl refl refl refl refl
section-Kept pauses c = pause-Kept c
section-Kept resumes c = resume-Kept c
section-Kept (finishes id) c = finish-Kept id c
section-Kept (finishes_unless_pending id) c = unless_pending-Kept id c
section-Kept (clears_pending id) c = clear_pending_removal-Kept id c
section-Kept (ends_attempts id) c = end_attempts-Kept id c
section-Kept (unconfirms id) c = mark_unconfirmed-Kept id c
section-Kept (stops id b) c = mark_stopped-Kept id b c
section-Kept (fails id t) c = mark_failed-Kept id t c
section-Kept (delivers id m ch now) c = mark_delivered-Kept id m ch now c
section-Kept (publishes_removed id js) c = publish_removed-Kept id js c.folder c
section-Kept (progresses id a p) c = progress-Kept id a p c
section-Kept (marks_sending id a) c = mark_sending-Kept id a c
section-Kept (begins_attempt r id k m now) c = begin_attempt-Kept r id k m now c
section-Kept (ends_attempt id a) c = end_attempt-Kept id a c
section-Kept (begins_wait id t) c = begin_wait-Kept id t c
section-Kept (assigns i f t) c = counted refl refl

-- Every critical section of the upload goroutine, of Pause, Resume and of a job action counts the
-- queue revision up when it changes jobs (other than byte counters), channel, folder or the paused
-- flag, or makes a job active; none replaces the store. It is what the saving protocol asks of
-- other goroutines. The restoration after a failed save of Pause or Resume is not among them.
pub section-IsHonest :
    (s : Section) (store : Option Contents → Option Contents) (cancels : List ℕ)
    → IsHonest (section_step s store cancels)
section-IsHonest s store cancels = record {
  revised = λ c e. (section-Kept s c).revised e;
  keeps_store = λ c. (section-Kept s c).keeps_store;
}
