-- ===== src/Retry/Attempts.antt =====
-- uploadJobWithRetry and waitBeforeUploadRetry (internal/app/retry.go), as steps of the world. The
-- hook beforeUploadAttempt, which only tests set, is left out. Each time c.mu is released the others
-- act.
use telegram_uploader.Prelude.{
  ℕ, suc, List, [], ◌∷◌, Option, none, some, String, if◌then◌else◌, length, Result, ok, err,
}
use telegram_uploader.Prelude.Int.{ℤ}
use telegram_uploader.Model.{Job, VideoMetadata, Channel}
use telegram_uploader.World.{World, Persisted, failed, interfere, persist}
use telegram_uploader.Pause.{queue_paused}
use telegram_uploader.Attempt.{
  Failure, plain_failure, paused_failure, context_failure, lost, not_connected,
  is_retryable_upload_error, apply_progress_for_attempt, prepare_send_for_attempt,
}
use telegram_uploader.Retry.{
  Services, Context, is_done, Begun, begin_attempt, end_attempt, begin_wait, end_wait, begun,
  declined,
}

module _ (s : Services) where
  abbrev pub after_wait : World × Option Failure → World × Option Failure
  after_wait (w, r) =
      let u = interfere w in
      let v = record u { ctl = end_wait u.ctl } in
      (
        v,
        elim r [
          | some e ↦ some e
          | none ↦ if queue_paused u.ctl then some paused_failure else none
        ],
      )

  abbrev pub wait_saved : ℕ → World × Persisted → World × Option Failure
  wait_saved delay (w, failed t) =
      let u = interfere w in (record u { ctl = end_wait u.ctl }, some (lost "保存重试状态失败" t))
  wait_saved delay (w, _) = let u = interfere w in after_wait (u, s.wait delay u)

  abbrev pub wait_begun : ℕ → Begun → World → World × Option Failure
  wait_begun delay (declined e) w = (w, some e)
  wait_begun delay (begun c) w = wait_saved delay (persist (interfere (record w { ctl = c })))

  -- `n` is the number of the retry.
  unfoldable pub wait_before_retry : String → Failure → ℕ → ℕ → World → World × Option Failure
  wait_before_retry id e delay n w =
      wait_begun delay (begin_wait id (s.wait_text delay n (length s.delays) e.text) w.ctl) w

  module _ (x : Context) (job : Job) (channel : Channel) where
    -- One round of the loop again after a wait, or its error.
    abbrev pub resumed :
        World × Option Failure → (World → World × Result Failure ℤ) → World × Result Failure ℤ
    resumed (w, some e) again = (w, err e)
    resumed (w, none) again = again (interfere w)

    abbrev pub exhausted : Failure → Failure
    exhausted e = elim s.delays [
      | [] ↦ e
      | d ∷ ds ↦ record e { text = s.exhausted_text (length s.delays) e.text }
    ]

    -- A failed attempt with the delays that are left, where a next one may follow.
    abbrev pub retried :
        List ℕ → ℕ → Failure → World → (World → World × Result Failure ℤ) → World × Result Failure ℤ
    retried [] retry e w again = (w, err (exhausted e))
    retried (d ∷ ds) retry e w again = resumed (wait_before_retry job.id e d (suc retry) w) again

    -- From the result of UploadVideo on.
    abbrev pub settle_attempt :
        List ℕ
        → ℕ
        → ℕ
        → World × Result Failure ℤ
        → (World → World × Result Failure ℤ)
        → World × Result Failure ℤ
    settle_attempt left retry attempt (w, ok message) again = (w, ok message)
    settle_attempt left retry attempt (w, err e) again =
        let u = interfere w in
        let v = interfere (record u { ctl = end_attempt job.id attempt u.ctl }) in
        if is_retryable_upload_error (is_done x v) e
        then retried left retry e v again
        else (v, err e)

    abbrev pub upload_once : VideoMetadata → ℕ → World → World × Result Failure ℤ
    upload_once metadata attempt w =
        if w.ctl.has_gateway
        then s.upload job channel metadata (prepare_send_for_attempt job.id attempt)
            (λ p u.
              interfere (record u { ctl = apply_progress_for_attempt job.id attempt p u.ctl }))
            (interfere w)
        else (w, err not_connected)

    -- The locked check after the attempt was saved.
    abbrev pub checked_attempt :
        List ℕ
        → ℕ
        → VideoMetadata
        → ℕ
        → World
        → (World → World × Result Failure ℤ)
        → World × Result Failure ℤ
    checked_attempt left retry metadata attempt w again =
        let ended = interfere (record w { ctl = end_attempt job.id attempt w.ctl }) in
        if is_done x w
        then (ended, err context_failure)
        else if queue_paused w.ctl
        then (ended, err paused_failure)
        else settle_attempt left retry attempt (upload_once metadata attempt (interfere w)) again

    abbrev pub attempt_saved :
        List ℕ
        → ℕ
        → VideoMetadata
        → ℕ
        → World × Persisted
        → (World → World × Result Failure ℤ)
        → World × Result Failure ℤ
    attempt_saved left retry metadata attempt (w, failed t) again = (w, err (lost "保存上传状态失败" t))
    attempt_saved left retry metadata attempt (w, _) again =
        checked_attempt left retry metadata attempt (interfere w) again

    abbrev pub attempt_begun :
        List ℕ
        → ℕ
        → VideoMetadata
        → Begun
        → World
        → (World → World × Result Failure ℤ)
        → World × Result Failure ℤ
    attempt_begun left retry metadata (declined e) w again = (w, err e)
    attempt_begun left retry metadata (begun c) w again =
        attempt_saved left retry metadata c.active_attempt
          (persist (interfere (record w { ctl = c }))) again

    abbrev pub attempt_verified :
        List ℕ
        → ℕ
        → Result Failure VideoMetadata
        → World
        → (World → World × Result Failure ℤ)
        → World × Result Failure ℤ
    attempt_verified left retry (err e) w again = (w, err e)
    attempt_verified left retry (ok metadata) w again =
        if is_done x w
        then (w, err context_failure)
        else attempt_begun left retry metadata
            (begin_attempt retry job.id x.own metadata (s.now retry) w.ctl) w again

    -- One round of the loop; `left` are the delays from retryIndex on.
    abbrev pub attempt_round :
        List ℕ → ℕ → World → (World → World × Result Failure ℤ) → World × Result Failure ℤ
    attempt_round left retry w again =
        if is_done x w
        then (w, err context_failure)
        else if queue_paused w.ctl
        then (w, err paused_failure)
        else attempt_verified left retry (s.verify retry job) (interfere w) again

    unfoldable pub retry_loop : List ℕ → ℕ → World → World × Result Failure ℤ
    retry_loop [] retry w = attempt_round [] retry w (λ u. (u, err (plain_failure "")))
    retry_loop (d ∷ ds) retry w = attempt_round (d ∷ ds) retry w (retry_loop ds (suc retry))

    unfoldable pub upload_job_with_retry : World → World × Result Failure ℤ
    upload_job_with_retry w = retry_loop s.delays 0 w
