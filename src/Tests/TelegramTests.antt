-- ===== src/Tests/TelegramTests.antt =====
-- Uploads to Telegram at concrete answers of the server.
use telegram_uploader.Prelude.{
  ◌==◌, true, false, List, [], ◌∷◌, Option, none, some, String, if◌then◌else◌, Result, ok, err, ◌≡◌,
  refl,
}
use telegram_uploader.Prelude.Int.{ℤ, pos}
use telegram_uploader.Model.{Job, Progress, queued}
use telegram_uploader.World.{
  World, interfere, interfere_held, persist, persist_loop, persist_candidate, save_candidate,
  save_contents,
}
use telegram_uploader.Queue.{find_job_index, index_of, modify, is_runnable}
use telegram_uploader.Pause.{queue_paused}
use telegram_uploader.Attempt.{
  Failure, plain_failure, is_retryable_upload_error, mark_sending, prepare_send_for_attempt,
}
use telegram_uploader.Retry.{Services, Context, begin_attempt, end_attempt, begin_wait}
use telegram_uploader.Retry.Attempts.{wait_before_retry, retry_loop, upload_job_with_retry}
use telegram_uploader.Retry.Once.{with_telegram, request_of, upload_job-SentOnce}
use telegram_uploader.Telegram.Channel.{
  Chat, candidate_hashes, find_chat, try_hashes, validate_channel,
}
use telegram_uploader.Telegram.Upload.{
  Transport, refused, prepare_upload_request, submit, deliver, upload_video,
}
use telegram_uploader.Telegram.Once.{SentOnce, upload_video-SentOnce}
use telegram_uploader.Telegram.Postable.{Validated, validate_channel-Validated}
use telegram_uploader.Tests.Samples.{sample, uploads, world, videos, no_metadata}

abbrev chat : Chat
chat = record {
  as_channel = true;
  id = pos 9;
  access_hash = pos 5;
  title = "videos";
  broadcast = true;
  left = false;
  may_post = true;
}

-- The first attempt loses the connection, and the server's answer to the message is lost.
abbrev first_fails : World → List Progress × Option Failure
first_fails w = ([], if w.ctl.active_attempt == 2 then some (plain_failure "EOF") else none)

abbrev losing : Transport
losing = record {
  accepting = λ w. true;
  is_done = λ w. false;
  has_api = λ w. true;
  has_upload_api = λ w. true;
  resolved_hash = λ w. none;
  get_channels = λ w h. ok (chat ∷ []);
  stat = λ r. ok (record { is_regular = true; size = pos 100 });
  max_upload_bytes = λ w. pos 2000;
  acquired = λ w. true;
  transfer = λ r w. first_fails w;
  slot_free = λ w. true;
  send_media = λ r w. refused (plain_failure "EOF");
  base = λ p. p;
}

abbrev services : Services
services = record {
  verify = λ n j. ok no_metadata;
  now = λ n. n;
  upload = λ j c m before progress w. (w, err (plain_failure ""));
  delays = 2 ∷ 3 ∷ [];
  wait = λ d w. none;
  wait_text = λ d n m t. t;
  exhausted_text = λ n t. t;
}

abbrev contexts : Context
contexts = record { own = 1; queue = 2 }

abbrev job : Job
job = sample "a" 0 queued

abbrev busy : World
busy = world (uploads "a" (job ∷ [])) []

abbrev caption : String → String
caption name = name

abbrev submissions : World × Result Failure ℤ → List ℤ
submissions (w, r) = w.submitted

submits_in_second_attempt :
    submissions
      (upload_job_with_retry (with_telegram losing caption services) contexts job videos busy)
    ≡ pos 1 ∷ []
unfolding upload_job_with_retry retry_loop begin_attempt queue_paused find_job_index index_of modify
    persist persist_loop persist_candidate save_candidate save_contents interfere interfere_held
    upload_video validate_channel candidate_hashes try_hashes find_chat prepare_upload_request
    deliver prepare_send_for_attempt mark_sending submit end_attempt is_retryable_upload_error
    wait_before_retry begin_wait is_runnable
submits_in_second_attempt = refl

upload_job-SentOnce_example :
    SentOnce
      (pos 1)
      busy
      (upload_job_with_retry (with_telegram losing caption services) contexts job videos busy)
upload_job-SentOnce_example = upload_job-SentOnce losing caption services contexts job videos busy

upload_video-SentOnce_example : SentOnce (pos 1) busy (
    upload_video losing
      (request_of caption job videos no_metadata)
      (λ w. (w, none))
      (λ p w. w)
      busy)
upload_video-SentOnce_example =
    upload_video-SentOnce losing (λ w. (w, none)) (λ w. refl) (λ p w. w) (λ p w. refl)
      (request_of caption job videos no_metadata) busy

validate_channel-Validated_example :
    Validated
      (λ h. ok (chat ∷ []))
      (candidate_hashes (pos 4) (some (pos 5)))
      (pos 9)
      (validate_channel true (some (pos 5)) (λ h. ok (chat ∷ [])) videos)
validate_channel-Validated_example =
    validate_channel-Validated true (some (pos 5)) (λ h. ok (chat ∷ [])) videos
