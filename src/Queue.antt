-- ===== src/Queue.antt =====
-- The functions on the job list of internal/app/queue_edit.go that need no controller. A job list
-- is a value here, so cloneJobsForPersistence (a deep copy) is the list itself. The index -1 of
-- findJobIndexLocked is `none`.
pub mod Select
pub mod Filter
pub mod Lookup
pub mod Limit
use telegram_uploader.Prelude.{
  ℕ, zero, suc, ◌+◌, ltb, ◌==◌, Bool, true, false, not, ◌&&◌, ◌||◌, List, [], ◌∷◌, Option, none,
  some, String, str_eq, if◌then◌else◌, get_elem?, contains,
}
use telegram_uploader.Prelude.Int.{ℤ, pos, ltb_ℤ, ne_ℤ}
use telegram_uploader.Model.{
  Job, JobState, VideoMetadata, queued, oversize, uploading, sending, confirming, sent, cancelled,
  failed, skipped, moving, moved, interrupted,
}

-- The loop of findJobIndexLocked.
unfoldable pub index_of : String → List Job → Option ℕ
index_of id [] = none
index_of id (j ∷ js) =
    let rest = index_of id js in
    if str_eq j.id id then some 0 else elim rest [ none ↦ none | some i ↦ some (suc i) ]

unfoldable pub find_job_index : List Job → String → Option ℕ
unfolding index_of
find_job_index jobs id = if str_eq id "" then none else index_of id jobs

-- `jobs[index]` with its fields assigned by `f`.
unfoldable pub modify : ℕ → (Job → Job) → List Job → List Job
modify i f [] = []
modify zero f (j ∷ js) = f j ∷ js
modify (suc i) f (j ∷ js) = j ∷ modify i f js

-- Positions from `i` on, and whether one of them changes.
unfoldable pub reindex_from : ℕ → List Job → List Job × Bool
reindex_from i [] = ([], false)
reindex_from i (j ∷ js) =
    let (rest, changed) = reindex_from (i + 1) js in
    (record j { position = pos i } ∷ rest, ne_ℤ j.position (pos i) || changed)

unfoldable pub reindex_jobs : List Job → List Job × Bool
unfolding reindex_from
reindex_jobs jobs = reindex_from 0 jobs

-- The loop of filteredJobs: the jobs kept, and how many are removed.
unfoldable pub partition_jobs : (Job → Bool) → List Job → List Job × ℕ
partition_jobs remove [] = ([], 0)
partition_jobs remove (j ∷ js) =
    let (kept, removed) = partition_jobs remove js in
    if remove j then (kept, removed + 1) else (j ∷ kept, removed)

unfoldable pub filtered_jobs : List Job → (Job → Bool) → List Job × ℕ
unfolding partition_jobs reindex_jobs
filtered_jobs jobs remove =
    let (kept, removed) = partition_jobs remove jobs in
    if ltb 0 removed then ((reindex_jobs kept).0, removed) else (kept, removed)

-- The byte counters of `from` on the first job with its id.
abbrev copy_progress : Job → Job → Job
copy_progress from j = record j {
  uploaded = from.uploaded;
  bytes_per_second = from.bytes_per_second;
}

unfoldable pub replace_progress : String → Job → List Job → List Job
replace_progress id from [] = []
replace_progress id from (j ∷ js) =
    let rest = replace_progress id from js in
    if str_eq j.id id then copy_progress from j ∷ js else j ∷ rest

-- `jobs[index]`, at the index that was found.
abbrev pub job_at : List Job → Option ℕ → Option Job
job_at jobs none = none
job_at jobs (some i) = get_elem? jobs i

abbrev pub progress_from : Option Job → String → List Job → List Job
progress_from none active jobs = jobs
progress_from (some j) active jobs = replace_progress active j jobs

-- preserveActiveProgressLocked, from the controller's active id and jobs to a candidate.
unfoldable pub preserve_active_progress : String → List Job → List Job → List Job
unfolding replace_progress
preserve_active_progress active current jobs =
    if str_eq active ""
    then jobs
    else progress_from (job_at current (find_job_index current active)) active jobs

-- A state is one of the program's: `state == model.JobQueued` and so on.
abbrev pub is_queued : JobState → Bool
is_queued queued = true
is_queued _ = false

abbrev pub is_oversize : JobState → Bool
is_oversize oversize = true
is_oversize _ = false

-- isRemovableJobState
unfoldable pub is_removable : JobState → Bool
is_removable uploading = false
is_removable sending = false
is_removable confirming = false
is_removable moving = false
is_removable _ = true

-- pendingRemovalEligibleState
unfoldable pub pending_removal_eligible : JobState → Bool
pending_removal_eligible uploading = true
pending_removal_eligible sending = true
pending_removal_eligible sent = true
pending_removal_eligible cancelled = true
pending_removal_eligible interrupted = true
pending_removal_eligible failed = true
pending_removal_eligible _ = false

-- isRecoverableJobState
unfoldable pub is_recoverable : JobState → Bool
is_recoverable cancelled = true
is_recoverable failed = true
is_recoverable interrupted = true
is_recoverable skipped = true
is_recoverable _ = false

-- The test of RemoveCompleted.
unfoldable pub is_completed : JobState → Bool
is_completed sent = true
is_completed moved = true
is_completed _ = false

-- hasRunnableJob and nextJob test for these states.
unfoldable pub is_runnable : JobState → Bool
is_runnable queued = true
is_runnable interrupted = true
is_runnable _ = false

abbrev pub zero_metadata : VideoMetadata
zero_metadata = record {
  duration_seconds = pos 0;
  width = pos 0;
  height = pos 0;
  supports_streaming = false;
  truncated_media_data = false;
}

-- resetPendingJobProgress
unfoldable pub reset_progress : Job → Job
reset_progress j = record j {
  uploaded = pos 0;
  bytes_per_second = 0;
  message_id = pos 0;
  channel_id = pos 0;
  metadata = zero_metadata;
  error = "";
  started_at = none;
  completed_at = none;
  move_destination = "";
}
