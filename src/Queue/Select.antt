-- ===== src/Queue/Select.antt =====
-- Which jobs ResetJobs and ApplyUploadLimit of internal/app/queue_edit.go change, and how.
use telegram_uploader.Prelude.{
  ℕ, ◌+◌, Bool, true, false, not, ◌&&◌, ◌||◌, List, [], ◌∷◌, String, str_eq, if◌then◌else◌,
  contains,
}
use telegram_uploader.Prelude.Int.{ℤ, pos, ltb_ℤ, ne_ℤ}
use telegram_uploader.Model.{
  Job, JobState, queued, oversize, cancelled, failed, skipped, interrupted,
}
use telegram_uploader.Queue.{is_recoverable, is_oversize, reset_progress}

-- ResetMode; a value outside the constants is `other_mode`.
pub data ResetMode : Type 0 where
  reset_selected reset_cancelled reset_failed reset_skipped reset_all_recoverable : ResetMode
  other_mode : ℕ → ResetMode

unfoldable pub valid_reset_mode : ResetMode → Bool
valid_reset_mode (other_mode n) = false
valid_reset_mode _ = true

abbrev is_cancelled : JobState → Bool
is_cancelled cancelled = true
is_cancelled _ = false

abbrev is_failed_or_interrupted : JobState → Bool
is_failed_or_interrupted failed = true
is_failed_or_interrupted interrupted = true
is_failed_or_interrupted _ = false

abbrev is_skipped : JobState → Bool
is_skipped skipped = true
is_skipped _ = false

-- The switch of matchesResetMode.
abbrev matches_mode : ResetMode → Job → List String → Bool
matches_mode reset_selected j selected = contains selected j.id
matches_mode reset_cancelled j selected = is_cancelled j.state
matches_mode reset_failed j selected = is_failed_or_interrupted j.state
matches_mode reset_skipped j selected = is_skipped j.state
matches_mode reset_all_recoverable j selected = true
matches_mode (other_mode n) j selected = false

unfoldable pub matches_reset_mode : Job → ResetMode → List String → Bool
unfolding is_recoverable
matches_reset_mode j mode selected = is_recoverable j.state && matches_mode mode j selected

-- One round of the loop of ResetJobs: whether the job is passed over.
unfoldable pub is_reset : String → List String → ResetMode → List String → Job → Bool
unfolding matches_reset_mode
is_reset active pending mode selected j =
    not (str_eq j.id active || contains pending j.id || not (matches_reset_mode j mode selected))

abbrev pub requeue : Job → Job
requeue j = reset_progress (record j { state = queued })

-- The loop: the next jobs and resetCount.
unfoldable pub reset_jobs : (Job → Bool) → List Job → List Job × ℕ
reset_jobs test [] = ([], 0)
reset_jobs test (j ∷ js) =
    let (rest, count) = reset_jobs test js in
    if test j then (requeue j ∷ rest, count + 1) else (j ∷ rest, count)

-- The inner branches of the loop of ApplyUploadLimit, for a job in one of its three states.
abbrev pub limit_eligible : ℤ → Job → Job × Bool
limit_eligible max j =
    if ltb_ℤ max j.size
    then if not (is_oversize j.state) || ne_ℤ j.uploaded (pos 0)
      then (reset_progress (record j { state = oversize }), true)
      else (j, false)
    else if is_oversize j.state
    then (reset_progress (record j { state = queued }), true)
    else (j, false)

-- The switch: all other states are passed over.
abbrev pub limit_as : JobState → ℤ → Job → Job × Bool
limit_as queued max j = limit_eligible max j
limit_as interrupted max j = limit_eligible max j
limit_as oversize max j = limit_eligible max j
limit_as _ max j = (j, false)

unfoldable pub limit_job : ℤ → Job → Job × Bool
unfolding reset_progress
limit_job max j = limit_as j.state max j

-- The loop: the jobs, and `changed`.
unfoldable pub limit_jobs : ℤ → List Job → List Job × Bool
limit_jobs max [] = ([], false)
limit_jobs max (j ∷ js) =
    let (rest, changed) = limit_jobs max js in
    let (j', changed') = limit_job max j in (j' ∷ rest, changed' || changed)
