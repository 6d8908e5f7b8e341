-- ===== src/Edit/Reset.antt =====
-- ResetJobs of internal/app/queue_edit.go: which jobs go back to the queue, and as what.
use telegram_uploader.Prelude.{
  ℕ, zero, suc, Bool, true, List, [], ◌∷◌, map, none, String, ◌≡◌, ◌≢◌, ◌⊎◌, contains,
}
use telegram_uploader.Prelude.Int.{pos}
use telegram_uploader.Model.{Job, JobState, queued, cancelled, failed, skipped, interrupted}
use telegram_uploader.Queue.{zero_metadata}
use telegram_uploader.Queue.Select.{
  ResetMode, reset_selected, reset_cancelled, reset_failed, reset_skipped, reset_all_recoverable,
  other_mode, is_reset,
}
use telegram_uploader.Controller.{Controller}
use telegram_uploader.World.Honest.{settled}
use telegram_uploader.World.Reached.{Reached}
use telegram_uploader.World.{World}

-- The terminal states that a reset may leave.
pub data IsRecoverable : JobState → Type 0 where
  was_cancelled : IsRecoverable cancelled
  had_failed : IsRecoverable failed
  was_skipped : IsRecoverable skipped
  was_interrupted : IsRecoverable interrupted

-- The jobs that a mode speaks of.
abbrev pub Chosen : ResetMode → List String → Job → Type 0
Chosen reset_selected ids j = IsRecoverable j.state × (contains ids j.id ≡ true)
Chosen reset_cancelled ids j = j.state ≡ cancelled
Chosen reset_failed ids j = (j.state ≡ failed) ⊎ (j.state ≡ interrupted)
Chosen reset_skipped ids j = j.state ≡ skipped
Chosen reset_all_recoverable ids j = IsRecoverable j.state
Chosen (other_mode n) ids j = ⊥

-- A job to upload from the start: identity, file, random id and place are kept, and every trace of
-- an upload or a move is gone.
pub record IsRenewed (j k : Job) : Type 0 where
  pub state : k.state ≡ queued
  pub id : k.id ≡ j.id
  pub random_id : k.random_id ≡ j.random_id
  pub path : k.path ≡ j.path
  pub name : k.name ≡ j.name
  pub size : k.size ≡ j.size
  pub mod_time : k.mod_time ≡ j.mod_time
  pub position : k.position ≡ j.position
  pub uploaded : k.uploaded ≡ pos 0
  pub bytes_per_second : k.bytes_per_second ≡ 0
  pub message_id : k.message_id ≡ pos 0
  pub channel_id : k.channel_id ≡ pos 0
  pub metadata : k.metadata ≡ zero_metadata
  pub error : k.error ≡ ""
  pub started_at : k.started_at ≡ none
  pub completed_at : k.completed_at ≡ none
  pub move_destination : k.move_destination ≡ ""

-- The jobs before, without their byte counters, the jobs after, and the number of those that were
-- reset. A chosen job is passed over
-- only if it is the active one or waits for its removal.
pub data Resets (mode : ResetMode) (ids : List String) (active : String) (pending : List String)
    : List Job → List Job → ℕ → Type 0 where
  done : Resets mode ids active pending [] [] zero
  keep :
      {j k : Job} {js ks : List Job} {n : ℕ}
      → (Chosen mode ids j → (j.id ≡ active) ⊎ (contains pending j.id ≡ true))
      → settled k ≡ j
      → Resets mode ids active pending js ks n
      → Resets mode ids active pending (j ∷ js) (k ∷ ks) n
  renew :
      {j k : Job} {js ks : List Job} {n : ℕ}
      → Chosen mode ids j
      → j.id ≢ active
      → IsRenewed j k
      → Resets mode ids active pending js ks n
      → Resets mode ids active pending (j ∷ js) (k ∷ ks) (suc n)

module _ (mode : ResetMode) (ids : List String) (active : String) (pending : List String) where
  abbrev test : Job → Bool
  test = is_reset active pending mode ids

-- The controller `e` after a reset of jobs of `d`.
pub record ResetFrom (mode : ResetMode) (ids : List String) (d e : Controller) (n : ℕ)
    : Type 0 where
  pub active : String
  pub pending : List String
  pub spared : (d.active_id ≡ active) ⊎ (d.active_id ≡ "")
  pub jobs : Resets mode ids active pending (map settled d.jobs) e.jobs n
