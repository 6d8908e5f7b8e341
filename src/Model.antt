-- ===== src/Model.antt =====
-- The data that every part shares: internal/model/job.go. A float64 is only copied and zeroed by
-- the modelled code, so it is the number whose binary digits are its bits (+0.0 is 0). An instant
-- (time.Time) is a number of ticks, and a nil *time.Time is `none`.
use telegram_uploader.Prelude.{ℕ, String, Bool, Option}
use telegram_uploader.Prelude.Int.{ℤ}

-- The empty string and any other text that a queue file may hold is `unknown`.
pub data JobState : Type 0 where
  queued oversize uploading sending confirming sent cancelled failed skipped moving moved
        interrupted :
      JobState
  unknown : String → JobState

pub record VideoMetadata : Type 0 where
  pub duration_seconds : ℤ
  pub width : ℤ
  pub height : ℤ
  pub supports_streaming : Bool
  pub truncated_media_data : Bool

pub record Job : Type 0 where
  pub id : String
  pub position : ℤ
  pub path : String
  pub name : String
  pub size : ℤ  -- int64
  pub mod_time : ℕ
  pub state : JobState
  pub uploaded : ℤ  -- int64
  pub bytes_per_second : ℕ
  pub random_id : ℤ  -- int64
  pub message_id : ℤ
  pub channel_id : ℤ
  pub metadata : VideoMetadata
  pub error : String
  pub started_at : Option ℕ
  pub completed_at : Option ℕ
  pub move_destination : String

pub record Progress : Type 0 where
  pub bytes_done : ℤ
  pub bytes_total : ℤ
  pub bytes_per_second : ℕ
  pub at : ℕ

pub record Channel : Type 0 where
  pub id : ℤ
  pub access_hash : ℤ
  pub title : String
