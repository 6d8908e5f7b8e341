-- ===== src/Controller.antt =====
-- The state of the queue controller (Controller of internal/app/controller.go) and notifyLocked.
-- The contexts that it can cancel (activeCancel, allCancel) and the channel runDone are named by
-- numbers. The store and the gateway are present or nil. The stream of snapshots holds one entry;
-- the stream of progress updates, the mover and the retry delays are arguments of what uses them.
use telegram_uploader.Prelude.{
  ℕ, ◌+◌, ◌%◌, ◌^◌, Bool, List, [], ◌∷◌, Option, some, String, str_eq, if◌then◌else◌, contains,
}
use telegram_uploader.Prelude.Int.{pos}
use telegram_uploader.Model.{Job, Channel}
use telegram_uploader.Snapshot.{Snapshot, sum_progress, sort_texts}

pub record Controller : Type 0 where
  pub has_store : Bool
  pub has_gateway : Bool
  pub jobs : List Job
  pub channel : Channel
  pub folder : String
  pub queue_revision : ℕ  -- uint64
  pub running : Bool
  pub paused : Bool
  pub pause_requested : Bool
  pub pause_revision : ℕ  -- uint64
  pub active_id : String
  pub last_error : String
  pub active_cancel : Option ℕ
  pub active_attempt : ℕ  -- uint64
  pub attempt_revision : ℕ  -- uint64
  pub all_cancel : Option ℕ
  pub run_done : Option ℕ
  pub cancel_job_id : String
  pub cancel_all_requested : Bool
  pub retry_wait_active : Bool
  pub pending_removal : List String
  pub updates : Option Snapshot

-- x++ on a uint64
abbrev pub next : ℕ → ℕ
next n = (n + 1) % 2 ^ 64

unfoldable pub snapshot_locked : Controller → Snapshot
snapshot_locked c =
    let (total, done) = sum_progress (pos 0) (pos 0) c.jobs in
    record {
      jobs = c.jobs;
      channel = c.channel;
      folder = c.folder;
      running = c.running;
      paused = c.paused;
      pause_requested = c.pause_requested;
      active_id = c.active_id;
      active_attempt = c.active_attempt;
      pending_removal_ids = sort_texts c.pending_removal;
      last_error = c.last_error;
      total_bytes = total;
      done_bytes = done;
    }

-- notifyLocked: an older snapshot in the slot is replaced.
abbrev pub notify : Controller → Controller
notify c = record c { updates = some (snapshot_locked c) }

-- A Go map with the key added, or deleted.
abbrev pub insert_key : String → List String → List String
insert_key k s = if contains s k then s else k ∷ s

abbrev pub delete_key : String → List String → List String
delete_key k [] = []
delete_key k (j ∷ s) = let rest = delete_key k s in if str_eq j k then rest else j ∷ rest

-- The errors of the package, by their cause; `storage` is an error of the store, with its text.
pub data Err : Type 0 where
  op_busy queue_running queue_changed no_gateway no_channel nothing_runnable : Err
  empty_id job_not_found removal_pending cannot_cancel already_ended cannot_retry : Err
  retry_active cannot_skip not_confirming unknown_reset_mode bad_limit : Err
  blank_path blank_id duplicate_id zero_random_id duplicate_random_id bad_name_or_size : Err
  bad_initial_state : Err
  storage : String → Err
  scan_failed : String → Err
