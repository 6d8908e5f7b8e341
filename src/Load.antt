-- ===== src/Load.antt =====
-- Load, reconcileMovingJobs and regularFileExists (internal/app/controller.go). os.Lstat and
-- filepath.Dir are arguments.
pub mod Reconcile
use telegram_uploader.Prelude.{
  ℕ, zero, suc, Bool, true, false, not, ◌&&◌, ◌||◌, List, [], ◌∷◌, map, Option, none, some, String,
  str_eq, if◌then◌else◌, length, Result, ok, err,
}
use telegram_uploader.Model.{Job, JobState, Channel, oversize, failed, moving, moved}
use telegram_uploader.Store.{Contents}
use telegram_uploader.Queue.{reindex_jobs}
use telegram_uploader.Controller.{Controller, Err, queue_running, storage, next, notify}
use telegram_uploader.World.{World, Persisted, interfere, persist, with_op}

-- os.Lstat: no file, another error, a regular file or something else.
pub data Stat : Type 0 where
  missing unreadable regular irregular : Stat

-- Whether a regular file exists; `none` is an error.
abbrev pub stat_exists : Stat → Option Bool
stat_exists missing = some false
stat_exists unreadable = none
stat_exists regular = some true
stat_exists irregular = some false

unfoldable pub regular_file_exists : (String → Stat) → String → Option Bool
regular_file_exists lstat path = if str_eq path "" then some false else stat_exists (lstat path)

-- The switch of reconcileMovingJobs, by what is known of source and destination.
abbrev pub reconcile_as : Option Bool → Option Bool → Job → Job
reconcile_as (some true) (some false) j = record j {
  state = oversize;
  move_destination = "";
  error = "上次移动在完成前中断，源文件仍然安全保留";
}
reconcile_as (some false) (some true) j = record j {
  state = moved;
  path = j.move_destination;
  move_destination = "";
  error = "";
}
reconcile_as (some true) (some true) j = record j {
  state = oversize;
  error = "上次移动中断后源文件和目标文件都存在；未自动删除任何一份";
}
reconcile_as (some false) (some false) j = record j {
  state = failed;
  error = "上次移动中断，源文件和目标文件都不存在";
}
reconcile_as _ _ j = record j { state = failed; error = "恢复上次文件移动时无法检查源文件或目标文件" }

abbrev pub is_moving : JobState → Bool
is_moving moving = true
is_moving _ = false

unfoldable pub reconcile_job : (String → Stat) → Job → Job
unfolding regular_file_exists
reconcile_job lstat j =
    if is_moving j.state
    then reconcile_as (regular_file_exists lstat j.path)
        (regular_file_exists lstat j.move_destination) j
    else j

-- Whether a job was moving, and the jobs.
unfoldable pub reconcile_moving_jobs : (String → Stat) → List Job → List Job × Bool
reconcile_moving_jobs lstat [] = ([], false)
reconcile_moving_jobs lstat (j ∷ js) =
    let (rest, changed) = reconcile_moving_jobs lstat js in
    (reconcile_job lstat j ∷ rest, is_moving j.state || changed)

-- The jobs that Load puts in memory, and whether they are to be saved.
unfoldable pub loaded : (String → Stat) → List Job → List Job × Bool
loaded lstat jobs =
    let (reconciled, changed) = reconcile_moving_jobs lstat jobs in
    let (indexed, moved') = reindex_jobs reconciled in (indexed, moved' || changed)

abbrev pub folder_of : (String → String) → List Job → String → String
folder_of dir [] folder = folder
folder_of dir (j ∷ js) folder = dir j.path

unfoldable pub publish_loaded : (String → String) → List Job → Contents → Controller → Controller
publish_loaded dir jobs q c = notify (record c {
  jobs = jobs;
  channel = q.channel;
  paused = q.paused;
  queue_revision = next c.queue_revision;
  pause_requested = false;
  folder = folder_of dir jobs c.folder;
  last_error = "";
})

abbrev pub is_busy : Controller → Bool
is_busy c =
    c.running
    || not (str_eq c.active_id "")
    || (elim c.pending_removal as (λ x. Bool) [ [] ↦ false | i ∷ is ↦ true ])

-- The error of persist, returned as it is.
abbrev pub unless_failed : World × Persisted → World × Result Err (Unit {0})
unless_failed (w, Persisted.failed t) = (w, err (storage t))
unless_failed (w, _) = (w, ok tt)

abbrev pub load_contents :
    (String → Stat)
    → (String → String)
    → Result String Contents
    → World
    → World × Result Err (Unit {0})
load_contents lstat dir (err t) w = (w, err (storage t))
load_contents lstat dir (ok q) w =
    let (jobs, changed) = loaded lstat q.jobs in
    let u = interfere (record w { ctl = publish_loaded dir jobs q w.ctl }) in
    if changed then unless_failed (persist u) else (u, ok tt)

abbrev pub load_locked :
    (String → Stat)
    → (String → String)
    → Result String Contents
    → World
    → World × Result Err (Unit {0})
load_locked lstat dir file w =
    if is_busy w.ctl
    then (w, err queue_running)
    else if w.ctl.has_store
    then load_contents lstat dir file (interfere w)
    else (w, ok tt)

-- `file` is the result of the store's Load.
unfoldable pub load_queue :
    (String → Stat)
    → (String → String)
    → Result String Contents
    → World
    → World × Result Err (Unit {0})
load_queue lstat dir file w = with_op (load_locked lstat dir file) w
