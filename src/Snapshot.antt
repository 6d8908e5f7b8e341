-- ===== src/Snapshot.antt =====
-- The view of the queue that the controller publishes (Snapshot, snapshotLocked and jobProgressBytes
-- of internal/app/controller.go). Its two float64 fields, BytesPerSecond and ETA, are left out.
pub mod Totals
use telegram_uploader.Prelude.{
  ℕ, suc, ◌+◌, ◌-◌, ◌^◌, ◌%◌, Bool, true, false, List, [], ◌∷◌, String, ltb, leb, if◌then◌else◌,
  str_le,
}
use telegram_uploader.Prelude.Int.{ℤ, pos, negsuc, ltb_ℤ, ◌+ℤ◌}
use telegram_uploader.Model.{Job, JobState, Channel, sent, moved}

pub record Snapshot : Type 0 where
  pub jobs : List Job
  pub channel : Channel
  pub folder : String
  pub running : Bool
  pub paused : Bool
  pub pause_requested : Bool
  pub active_id : String
  pub active_attempt : ℕ
  pub pending_removal_ids : List String
  pub last_error : String
  pub total_bytes : ℤ
  pub done_bytes : ℤ

-- An int64: the representative of `z` between -2^63 and 2^63 - 1.
unfoldable pub wrap_int64 : ℤ → ℤ
wrap_int64 (pos n) = let r = n % 2 ^ 64 in if ltb r (2 ^ 63) then pos r else negsuc (2 ^ 64 - 1 - r)
wrap_int64 (negsuc n) =
    let r = n % 2 ^ 64 in if ltb r (2 ^ 63) then negsuc r else pos (2 ^ 64 - 1 - r)

abbrev pub is_delivered : JobState → Bool
is_delivered sent = true
is_delivered moved = true
is_delivered _ = false

-- `done` between 0 and `total`.
abbrev pub clamp_done : ℤ → ℤ → ℤ
clamp_done total done =
    if ltb_ℤ done (pos 0) then pos 0 else if ltb_ℤ total done then total else done

-- jobProgressBytes: (total, done).
unfoldable pub job_progress_bytes : Job → ℤ × ℤ
job_progress_bytes j =
    if ltb_ℤ (pos 0) j.size
    then if is_delivered j.state then (j.size, j.size) else (j.size, clamp_done j.size j.uploaded)
    else (pos 0, pos 0)

-- The loop of snapshotLocked over the byte counters.
unfoldable pub sum_progress : ℤ → ℤ → List Job → ℤ × ℤ
sum_progress total done [] = (total, done)
sum_progress total done (j ∷ js) =
    let (t, d) = job_progress_bytes j in
    sum_progress (wrap_int64 (total +ℤ t)) (wrap_int64 (done +ℤ d)) js

-- sort.Strings
abbrev pub insert_text : String → List String → List String
insert_text s [] = s ∷ []
insert_text s (t ∷ ts) = let rest = insert_text s ts in if str_le s t then s ∷ t ∷ ts else t ∷ rest

unfoldable pub sort_texts : List String → List String
sort_texts [] = []
sort_texts (t ∷ ts) = insert_text t (sort_texts ts)
