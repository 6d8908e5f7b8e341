-- ===== src/Load/Reconcile.antt =====
-- The jobs after a start of the program (Load of internal/queue/store.go and of
-- internal/app/controller.go).
use telegram_uploader.Prelude.{
  Bool, true, false, Option, some, String, ◌≡◌, ◌≢◌, refl, arith, Bool-cases, inl, inr,
}
use telegram_uploader.Model.{Job, oversize, moving, moved}
use telegram_uploader.Load.{Stat, regular_file_exists, reconcile_as, reconcile_job, is_moving}

-- How a job that was being moved is taken up, by the files that exist.
pub record IsReconciled (lstat : String → Stat) (before after : Job) : Type 0 where
  pub not_moving : after.state ≢ moving
  pub same_id : after.id ≡ before.id
  pub same_random_id : after.random_id ≡ before.random_id
  pub others : before.state ≢ moving → after ≡ before
  -- The path changes only to a regular file, where the source is known to be none.
  pub moved_away :
      before.state ≡ moving
      → after.state ≡ moved
      → (after.path ≡ before.move_destination)
        × (regular_file_exists lstat before.path ≡ some false)
        × (regular_file_exists lstat before.move_destination ≡ some true)
  pub stays : after.state ≢ moved → after.path ≡ before.path
  -- A job that may be moved again has its source.
  pub movable :
      before.state ≡ moving
      → after.state ≡ oversize
      → regular_file_exists lstat before.path ≡ some true

reconcile_as-IsReconciled :
    (lstat : String → Stat) (s d : Option Bool) (j : Job)
    → regular_file_exists lstat j.path ≡ s
    → regular_file_exists lstat j.move_destination ≡ d
    → j.state ≡ moving
    → IsReconciled lstat j (reconcile_as s d j)
reconcile_as-IsReconciled lstat s d j e f m = ground arith

-- After a start no job is being moved. One that was is taken up as moved only if the destination is a
-- regular file and the source is none, its path then being the destination, and as oversize only if
-- the source is a regular file. All other jobs are left alone.
pub reconcile_job-IsReconciled :
    (lstat : String → Stat) (j : Job) → IsReconciled lstat j (reconcile_job lstat j)
unfolding reconcile_job
reconcile_job-IsReconciled lstat j = elim (Bool-cases (is_moving j.state)) [
  | inl e ↦ simp e (
      reconcile_as-IsReconciled lstat (regular_file_exists lstat j.path)
        (regular_file_exists lstat j.move_destination) j refl refl (ground arith))
  | inr e ↦ simp e (ground arith)
]
