-- ===== src/Tests/QueueTests.antt =====
-- Appended jobs, the totals of a snapshot and interrupted moves at concrete inputs.
use telegram_uploader.Prelude.{
  List, [], ◌∷◌, String, str_eq, ◌≡◌, refl, ok, if◌then◌else◌, ℕ, ◌≤◌, arith,
}
use telegram_uploader.Prelude.Int.{pos}
use telegram_uploader.Model.{Job, queued, oversize, moving, uploading, failed}
use telegram_uploader.Controller.{snapshot_locked}
use telegram_uploader.Snapshot.Totals.{size_sum, snapshot_locked-totals}
use telegram_uploader.Append.{Paths, append_from, known_of, judge, has}
use telegram_uploader.Append.Fresh.{IsUnique, ids_of, StaysUnique, append_from-StaysUnique}
use telegram_uploader.Load.{Stat, missing, regular, reconcile_job}
use telegram_uploader.Load.Reconcile.{IsReconciled, reconcile_job-IsReconciled}
use telegram_uploader.Tests.Samples.{sample, idle}

abbrev two : List Job
two = sample "a" 0 uploading ∷ sample "b" 1 failed ∷ []

abbrev candidates : List Job
candidates = sample "b" 7 queued ∷ sample "c" 2 oversize ∷ []

abbrev plain_paths : Paths
plain_paths = record { is_blank = λ s. str_eq s ""; resolve = λ s. s }

-- The first candidate has the path of a queued job.
appends_one :
    append_from plain_paths (known_of plain_paths two) candidates ≡ ok (sample "c" 2 oversize ∷ [])
unfolding append_from known_of judge has
appends_one = refl

two-IsUnique : IsUnique str_eq (ids_of two)
unfolding has
two-IsUnique = (refl, (refl, tt))

append_from-StaysUnique_example : StaysUnique two (sample "c" 2 oversize ∷ [])
unfolding has
append_from-StaysUnique_example =
    append_from-StaysUnique plain_paths two candidates (sample "c" 2 oversize ∷ []) two-IsUnique
      (refl, (refl, tt)) appends_one

snapshot_locked-totals_example :
    ((snapshot_locked (idle two)).total_bytes ≡ pos (size_sum two))
    × ((e : ℕ) × ((snapshot_locked (idle two)).done_bytes ≡ pos e) × (e ≤ size_sum two))
snapshot_locked-totals_example = snapshot_locked-totals (idle two) (omega arith)

abbrev half_moved : Job
half_moved = record (sample "/v/a.mp4" 0 moving) { move_destination = "/big/a.mp4" }

-- Only the destination is there.
abbrev only_big : String → Stat
only_big p = if str_eq p "/big/a.mp4" then regular else missing

reconcile_job-IsReconciled_example :
    IsReconciled only_big half_moved (reconcile_job only_big half_moved)
reconcile_job-IsReconciled_example = reconcile_job-IsReconciled only_big half_moved

abbrev waiting_job : Job
waiting_job = sample "c" 2 queued
