-- ===== src/Tests/UploadTests.antt =====
-- Runs of the upload goroutine at concrete inputs.
use telegram_uploader.Prelude.{
  List, [], ◌∷◌, map, none, some, Option, true, ◌≡◌, ◌≢◌, refl, Result, ok, err,
}
use telegram_uploader.Prelude.Int.{pos, ℤ}
use telegram_uploader.Model.{Job, JobState, queued, sent, failed, interrupted, confirming}
use telegram_uploader.Queue.{find_job_index, index_of, modify, is_runnable}
use telegram_uploader.World.{
  World, changed, persist, persist_loop, persist_candidate, save_candidate, save_contents,
  interfere, interfere_held,
}
use telegram_uploader.Runner.{
  first_runnable, start_run, end_run, finish_active_job_unless_pending, next_job, end_attempts,
  mark_unconfirmed, mark_failed, mark_delivered,
}
use telegram_uploader.Pause.{queue_paused}
use telegram_uploader.Attempt.{
  Failure, plain_failure, is_retryable_upload_error, mark_sending, prepare_send_for_attempt,
}
use telegram_uploader.Retry.{Services, begin_attempt, end_attempt, begin_wait}
use telegram_uploader.Retry.Attempts.{wait_before_retry, retry_loop, upload_job_with_retry}
use telegram_uploader.Run.{
  start, run_loop, run_queue, upload_failed, finish_terminal, fail_job,
  remove_after_terminal_persist,
}
use telegram_uploader.Run.Removal.{remove_after_terminal_persist-ne-changed}
use telegram_uploader.Tests.Samples.{sample, idle, world, no_metadata}

-- The message 77 is sent once BeforeSend allows it.
abbrev sent_after : World × Option Failure → World × Result Failure ℤ
sent_after (w, none) = (w, ok (pos 77))
sent_after (w, some e) = (w, err e)

abbrev working : Services
working = record {
  verify = λ n j. ok no_metadata;
  now = λ n. n;
  upload = λ j c m before progress w. sent_after (before w);
  delays = 2 ∷ [];
  wait = λ d w. none;
  wait_text = λ d n m t. t;
  exhausted_text = λ n t. t;
}

-- The connection is lost in each attempt.
abbrev cut : Services
cut = record working {
  upload =
      λ j c m before progress w. (w, err (record (plain_failure "EOF") { is_transport = true }));
}

-- The connection is lost while the message is submitted.
abbrev doubtful : Services
doubtful = record working {
  upload = λ j c m before progress w.
      ((before w).0, err (record (plain_failure "EOF") { is_outcome_unknown = true }));
}

abbrev waiting : World
waiting = world (idle (sample "a" 0 queued ∷ sample "b" 1 sent ∷ sample "c" 2 interrupted ∷ [])) []

abbrev started : World
started = (start 1 5 waiting).0

abbrev states : World → List JobState
states w = map (λ (j : Job). j.state) w.ctl.jobs

uploads_all : states (run_queue working 3 1 10 started) ≡ sent ∷ sent ∷ sent ∷ []
unfolding start run_queue run_loop first_runnable is_runnable start_run next_job
    upload_job_with_retry retry_loop begin_attempt queue_paused find_job_index index_of modify
    persist persist_loop persist_candidate save_candidate save_contents interfere interfere_held
    prepare_send_for_attempt mark_sending end_attempts mark_delivered finish_terminal
    finish_active_job_unless_pending end_run
uploads_all = refl

retries_then_fails : states (run_queue cut 3 1 10 started) ≡ failed ∷ sent ∷ failed ∷ []
unfolding start run_queue run_loop first_runnable is_runnable start_run next_job
    upload_job_with_retry retry_loop begin_attempt queue_paused find_job_index index_of modify
    persist persist_loop persist_candidate save_candidate save_contents interfere interfere_held
    end_attempt is_retryable_upload_error wait_before_retry begin_wait end_attempts upload_failed
    fail_job mark_failed finish_terminal finish_active_job_unless_pending end_run
retries_then_fails = refl

-- The queue stops at the first doubtful message.
stops_in_doubt : states (run_queue doubtful 3 1 10 started) ≡ confirming ∷ sent ∷ interrupted ∷ []
unfolding start run_queue run_loop first_runnable is_runnable start_run next_job
    upload_job_with_retry retry_loop begin_attempt queue_paused find_job_index index_of modify
    persist persist_loop persist_candidate save_candidate save_contents interfere interfere_held
    prepare_send_for_attempt mark_sending end_attempt is_retryable_upload_error end_attempts
    upload_failed mark_unconfirmed end_run
stops_in_doubt = refl

remove_after_terminal_persist-ne-changed_example :
    (remove_after_terminal_persist "b" waiting).1 ≢ changed
remove_after_terminal_persist-ne-changed_example =
    remove_after_terminal_persist-ne-changed "b" waiting
