-- ===== src/Telegram.antt =====
-- The Telegram transport (internal/telegram): what the queue controller asks of it, and the parts of
-- its implementation that do not belong to the protocol library.
pub mod Channel
pub mod Upload
pub mod Once
pub mod Postable
pub mod Binding
pub mod Tasks
pub mod Bound
use telegram_uploader.Prelude.{ℕ, ◌==◌, Bool, String, ◌||◌, if◌then◌else◌}
use telegram_uploader.Prelude.Int.{ℤ}
use telegram_uploader.Model.{VideoMetadata}

-- UploadRequest. `has_file` says whether an open file is given.
pub record UploadRequest : Type 0 where
  pub channel : telegram_uploader.Model.Channel
  pub path : String
  pub has_file : Bool
  pub name : String
  pub caption : String
  pub random_id : ℤ
  pub metadata : VideoMetadata

-- The parts transferred at a time: compatibility, balanced and fast.
unfoldable pub normalize_upload_concurrency : ℕ → ℕ
normalize_upload_concurrency value = if value == 4 || (value == 8 || value == 12) then value else 8
