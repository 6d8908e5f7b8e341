-- ===== src/Telegram/Upload.antt =====
-- UploadVideo and reserveSendSlot (internal/telegram/upload.go). The calls of the protocol library
-- and of the operating system are the `Transport`. Each wait lets the others act. The transfer's
-- progress is delivered before UploadVideo goes on (uploadProgressReporter.Close).
use telegram_uploader.Prelude.{
  Bool, true, not, ◌&&◌, List, [], ◌∷◌, Option, none, some, String, str_eq, if◌then◌else◌, Result,
  ok, err,
}
use telegram_uploader.Prelude.Int.{ℤ, pos, ltb_ℤ, is_zero}
use telegram_uploader.Model.{Progress}
use telegram_uploader.World.{World, interfere}
use telegram_uploader.Attempt.{Failure, plain_failure, context_failure, not_connected}
use telegram_uploader.Telegram.{UploadRequest}
use telegram_uploader.Telegram.Channel.{Chat, validate_channel}

pub record FileInfo : Type 0 where
  pub is_regular : Bool
  pub size : ℤ

-- What sendMedia may answer: an error, an update with a message id, or one without.
pub data Sent : Type 0 where
  refused : Failure → Sent
  message : ℤ → Sent
  no_message : Failure → Sent

pub record Transport : Type 0 where
  pub accepting : World → Bool  -- beginRequest
  pub is_done : World → Bool  -- requestCtx.Err() != nil
  pub has_api : World → Bool
  pub has_upload_api : World → Bool
  pub resolved_hash : World → Option ℤ
  pub get_channels : World → ℤ → Result Failure (List Chat)
  pub stat : UploadRequest → Result Failure FileInfo
  pub max_upload_bytes : World → ℤ
  pub acquired : World → Bool  -- uploadSem, or requestCtx.Done()
  pub transfer : UploadRequest → World → List Progress × Option Failure
  pub slot_free : World → Bool  -- the timer of reserveSendSlot, or requestCtx.Done()
  pub send_media : UploadRequest → World → Sent
  pub base : String → String  -- filepath.Base

-- ErrUploadData and ErrSendOutcomeUnknown, wrapped around an error.
abbrev pub upload_data : Failure → Failure
upload_data e = record e { is_transport = true }

abbrev pub outcome_unknown : Failure → Failure
outcome_unknown e = record e { is_outcome_unknown = true }

module _ (t : Transport) where
  unfoldable pub prepare_upload_request : UploadRequest → UploadRequest
  prepare_upload_request r = if str_eq r.name "" then record r { name = t.base r.path } else r

  -- messages.sendMedia is called.
  abbrev pub sent_as : World → Sent → World × Result Failure ℤ
  sent_as w (refused e) = (w, err (outcome_unknown e))
  sent_as w (message id) = (w, ok id)
  sent_as w (no_message e) = (w, err (outcome_unknown e))

  unfoldable pub submit : UploadRequest → World → World × Result Failure ℤ
  submit r w =
      let u = record w { submitted = r.random_id ∷ w.submitted } in
      let v = interfere u in sent_as v (t.send_media r v)

  -- reserveSendSlot, then the message.
  abbrev pub reserve_and_submit : UploadRequest → World → World × Result Failure ℤ
  reserve_and_submit r w =
      let u = interfere w in if t.slot_free u then submit r u else (u, err context_failure)

  abbrev pub unless_done : (World → World × Result Failure ℤ) → World → World × Result Failure ℤ
  unless_done body w = if t.is_done w then (w, err context_failure) else body w

  -- The callback BeforeSend.
  abbrev pub allowed : UploadRequest → World × Option Failure → World × Result Failure ℤ
  allowed r (w, some e) = (w, err e)
  allowed r (w, none) = unless_done (reserve_and_submit r) w

  -- The progress callbacks of a transfer.
  unfoldable pub deliver : (Progress → World → World) → List Progress → World → World
  deliver progress [] w = w
  deliver progress (p ∷ ps) w = deliver progress ps (progress p w)

  abbrev pub transferred :
      UploadRequest
      → (World → World × Option Failure)
      → Option Failure
      → World
      → World × Result Failure ℤ
  transferred r before (some e) w = (w, err (upload_data e))
  transferred r before none w = unless_done (λ u. allowed r (before u)) w

  abbrev pub after_transfer :
      UploadRequest
      → (World → World × Option Failure)
      → (Progress → World → World)
      → List Progress × Option Failure
      → World
      → World × Result Failure ℤ
  after_transfer r before progress (ps, failure) w =
      transferred r before failure (deliver progress ps w)

  abbrev pub transfer_file :
      UploadRequest
      → (World → World × Option Failure)
      → (Progress → World → World)
      → World
      → World × Result Failure ℤ
  transfer_file r before progress w =
      let u = interfere w in
      if t.acquired u
      then after_transfer r before progress (t.transfer r u) u
      else (u, err context_failure)

  abbrev pub check_size :
      UploadRequest
      → (World → World × Option Failure)
      → (Progress → World → World)
      → Result Failure FileInfo
      → World
      → World × Result Failure ℤ
  check_size r before progress (err e) w = (w, err e)
  check_size r before progress (ok info) w =
      if not info.is_regular
      then (w, err (plain_failure "视频路径不是普通文件"))
      else if ltb_ℤ (pos 0) (t.max_upload_bytes w) && ltb_ℤ (t.max_upload_bytes w) info.size
      then (w, err (plain_failure "视频大小超过当前 Bot 上传上限"))
      else transfer_file (prepare_upload_request r) before progress w

  abbrev pub channel_checked :
      UploadRequest
      → (World → World × Option Failure)
      → (Progress → World → World)
      → Result Failure telegram_uploader.Model.Channel
      → World
      → World × Result Failure ℤ
  channel_checked r before progress (err e) w = (w, err e)
  channel_checked r before progress (ok c) w =
      let s = record r { channel = c } in check_size s before progress (t.stat s) w

  unfoldable pub upload_video :
      UploadRequest
      → (World → World × Option Failure)
      → (Progress → World → World)
      → World
      → World × Result Failure ℤ
  upload_video r before progress w =
      if is_zero r.random_id
      then (w, err (plain_failure "random_id 不能为空"))
      else if not (t.accepting w)
      then (w, err not_connected)
      else if not (t.has_api w)
      then (w, err not_connected)
      else if not (t.has_upload_api w)
      then (w, err not_connected)
      else let u = interfere w in
        channel_checked r before progress
          (validate_channel (t.has_api u) (t.resolved_hash u) (t.get_channels u) r.channel) u
