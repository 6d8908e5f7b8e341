-- ===== src/Queue/Limit.antt =====
-- What ApplyUploadLimit (internal/app/queue_edit.go) does to one job.
use telegram_uploader.Prelude.{Bool, true, false, ◌≡◌, ◌≢◌}
use telegram_uploader.Prelude.Int.{ℤ, ltb_ℤ}
use telegram_uploader.Model.{Job, JobState, queued, oversize, interrupted}
use telegram_uploader.Queue.Select.{limit_job}

abbrev is_limited : JobState → Bool
is_limited queued = true
is_limited oversize = true
is_limited interrupted = true
is_limited _ = false

pub record Limited (max : ℤ) (j k : Job) (is_changed : Bool) : Type 0 where
  pub others : is_limited j.state ≡ false → k ≡ j
  pub over : is_limited j.state ≡ true → ltb_ℤ max j.size ≡ true → k.state ≡ oversize
  pub under : is_limited j.state ≡ true → ltb_ℤ max j.size ≡ false → k.state ≢ oversize
  pub id : k.id ≡ j.id
  pub random_id : k.random_id ≡ j.random_id
  pub path : k.path ≡ j.path
  pub size : k.size ≡ j.size
  pub unchanged : is_changed ≡ false → k ≡ j
  pub again : limit_job max k ≡ (k, false)
