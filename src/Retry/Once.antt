-- ===== src/Retry/Once.antt =====
-- How often uploadJobWithRetry (internal/app/retry.go) submits the message of its job through
-- UploadVideo (internal/telegram/upload.go).
use telegram_uploader.Prelude.{
  ℕ, suc, Bool, true, false, List, [], ◌∷◌, Option, none, some, String, length, Result, ok, err,
  ◌≡◌, refl, arith, ◌∙◌, Bool-cases, inl, inr,
}
use telegram_uploader.Prelude.Int.{ℤ}
use telegram_uploader.Model.{Job, VideoMetadata, Channel}
use telegram_uploader.World.{World, Persisted, saved, changed, failed, interfere, persist}
use telegram_uploader.World.Submitted.{interfere-submitted, persist-submitted}
use telegram_uploader.Pause.{queue_paused}
use telegram_uploader.Attempt.{
  Failure, plain_failure, is_retryable_upload_error, apply_progress_for_attempt,
  prepare_send_for_attempt, save_sending, settle_send, mark_sending, Marked, refused, already,
  marked,
}
use telegram_uploader.Telegram.{UploadRequest}
use telegram_uploader.Telegram.Upload.{Transport, upload_video}
use telegram_uploader.Telegram.Once.{
  SentOnce, SentOnce-from, upload_video-SentOnce, refused-SentOnce,
}
use telegram_uploader.Retry.{
  Services, Context, is_done, Begun, begin_attempt, begin_wait, end_attempt, begun, declined,
}
use telegram_uploader.Retry.Attempts.{
  wait_saved, wait_begun, wait_before_retry, resumed, retried, settle_attempt, upload_once,
  checked_attempt, attempt_saved, attempt_begun, attempt_verified, attempt_round, retry_loop,
  upload_job_with_retry,
}

-- The request that uploadJobWithRetry makes; `caption` is captionFromFilename.
abbrev pub request_of : (String → String) → Job → Channel → VideoMetadata → UploadRequest
request_of caption job channel metadata = record {
  channel = channel;
  path = job.path;
  has_file = true;
  name = job.name;
  caption = caption job.name;
  random_id = job.random_id;
  metadata = metadata;
}

-- The services with the gateway of internal/telegram.
abbrev pub with_telegram : Transport → (String → String) → Services → Services
with_telegram t caption s = record s {
  upload = λ job channel metadata before progress w.
      upload_video t (request_of caption job channel metadata) before progress w;
}

settle_send-submitted : (p : World × Persisted) → (settle_send p).0.submitted ≡ p.0.submitted
settle_send-submitted (w, saved) = refl
settle_send-submitted (w, changed) = refl
settle_send-submitted (w, failed t) = interfere-submitted w

save_sending-submitted : (m : Marked) (w : World) → (save_sending m w).0.submitted ≡ w.submitted
save_sending-submitted (refused t) w = refl
save_sending-submitted already w = refl
save_sending-submitted (marked c) w =
    let v = record w { ctl = c } in
    settle_send-submitted (persist (interfere v))
    ∙ persist-submitted (interfere v)
    ∙ interfere-submitted v

prepare_send-submitted :
    (id : String) (a : ℕ) (w : World) → (prepare_send_for_attempt id a w).0.submitted ≡ w.submitted
unfolding prepare_send_for_attempt
prepare_send-submitted id a w = save_sending-submitted (mark_sending id a w.ctl) w

module _ (s : Services) where
  wait_saved-submitted :
      (delay : ℕ) (p : World × Persisted) → (wait_saved s delay p).0.submitted ≡ p.0.submitted
  wait_saved-submitted delay (w, failed t) = interfere-submitted w
  wait_saved-submitted delay (w, saved) = interfere-submitted (interfere w) ∙ interfere-submitted w
  wait_saved-submitted delay (w, changed) =
      interfere-submitted (interfere w) ∙ interfere-submitted w

  wait_begun-submitted :
      (delay : ℕ) (b : Begun) (w : World) → (wait_begun s delay b w).0.submitted ≡ w.submitted
  wait_begun-submitted delay (declined e) w = refl
  wait_begun-submitted delay (begun c) w =
      let v = record w { ctl = c } in
      wait_saved-submitted delay (persist (interfere v))
      ∙ persist-submitted (interfere v)
      ∙ interfere-submitted v

  wait-submitted :
      (id : String) (e : Failure) (delay n : ℕ) (w : World)
      → (wait_before_retry s id e delay n w).0.submitted ≡ w.submitted
  unfolding wait_before_retry
  wait-submitted id e delay n w =
      wait_begun-submitted delay
        (begin_wait id (s.wait_text delay n (length s.delays) e.text) w.ctl) w

retryable-known :
    (done : Bool) (e : Failure)
    → is_retryable_upload_error done e ≡ true
    → e.is_outcome_unknown ≡ false
unfolding is_retryable_upload_error
retryable-known done e h = ground arith

-- An error that is not of an unknown outcome comes without a submission.
unsubmitted :
    (id : ℤ) (w u : World) (e : Failure)
    → SentOnce id w (u, err e)
    → e.is_outcome_unknown ≡ false
    → u.submitted ≡ w.submitted
unsubmitted id w u e (inl h) k = h
unsubmitted id w u e (inr h) k = absurd (cc (h.1, k))

failure-SentOnce :
    (id : ℤ) (w u v : World) (e : Failure)
    → v.submitted ≡ u.submitted
    → SentOnce id w (u, err e)
    → SentOnce id w (v, err e)
failure-SentOnce id w u v e q (inl h) = inl (q ∙ h)
failure-SentOnce id w u v e q (inr h) = inr (q ∙ h.0, h.1)

module _ (t : Transport) (caption : String → String) (base : Services) (x : Context) (job : Job)
    (channel : Channel) where
  abbrev s : Services
  s = with_telegram t caption base

  upload_once-SentOnce :
      (metadata : VideoMetadata) (a : ℕ) (w : World)
      → SentOnce job.random_id w (upload_once s x job channel metadata a w)
  upload_once-SentOnce metadata a w = elim (Bool-cases w.ctl.has_gateway) [
    | inl g ↦ simp g (
        SentOnce-from job.random_id w (interfere w)
          (upload_video t (request_of caption job channel metadata)
            (prepare_send_for_attempt job.id a)
            (λ p u. interfere (record u { ctl = apply_progress_for_attempt job.id a p u.ctl }))
            (interfere w))
          (interfere-submitted w)
          (upload_video-SentOnce t (prepare_send_for_attempt job.id a)
            (prepare_send-submitted job.id a)
            (λ p u. interfere (record u { ctl = apply_progress_for_attempt job.id a p u.ctl }))
            (λ p u.
              interfere-submitted (record u { ctl = apply_progress_for_attempt job.id a p u.ctl }))
            (request_of caption job channel metadata) (interfere w)))
    | inr g ↦ simp g (inl refl)
  ]

  module _ (again : World → World × Result Failure ℤ)
      (ih : (w : World) → SentOnce job.random_id w (again w)) where
    resumed-SentOnce :
        (w : World) (p : World × Option Failure)
        → p.0.submitted ≡ w.submitted
        → SentOnce job.random_id w (resumed s x job channel p again)
    resumed-SentOnce w (u, some e) q = inl q
    resumed-SentOnce w (u, none) q =
        SentOnce-from job.random_id w (interfere u) (again (interfere u))
          (interfere-submitted u ∙ q) (ih (interfere u))

    retried-SentOnce :
        (left : List ℕ) (retry : ℕ) (e : Failure) (w : World)
        → SentOnce job.random_id w (retried s x job channel left retry e w again)
    retried-SentOnce [] retry e w = inl refl
    retried-SentOnce (d ∷ ds) retry e w =
        resumed-SentOnce w (wait_before_retry s job.id e d (suc retry) w)
          (wait-submitted s job.id e d (suc retry) w)

    settle-SentOnce :
        (left : List ℕ) (retry a : ℕ) (w : World) (p : World × Result Failure ℤ)
        → SentOnce job.random_id w p
        → SentOnce job.random_id w (settle_attempt s x job channel left retry a p again)
    settle-SentOnce left retry a w (u, ok m) h = h
    settle-SentOnce left retry a w (u, err e) h =
        let u' = interfere u in
        let v' = record u' { ctl = end_attempt job.id a u'.ctl } in
        let v = interfere v' in
        let same = interfere-submitted v' ∙ interfere-submitted u in
        elim (Bool-cases (is_retryable_upload_error (is_done x v) e)) [
          | inl q ↦ simp q (
              SentOnce-from job.random_id w v (retried s x job channel left retry e v again)
                (same ∙ unsubmitted job.random_id w u e h (retryable-known (is_done x v) e q))
                (retried-SentOnce left retry e v))
          | inr q ↦ simp q (failure-SentOnce job.random_id w u v e same h)
        ]

    checked-SentOnce :
        (left : List ℕ) (retry : ℕ) (metadata : VideoMetadata) (a : ℕ) (w : World)
        → SentOnce job.random_id w (checked_attempt s x job channel left retry metadata a w again)
    checked-SentOnce left retry metadata a w =
        let ended = interfere-submitted (record w { ctl = end_attempt job.id a w.ctl }) in
        elim (Bool-cases (is_done x w)) [
          | inl d ↦ simp d (inl ended)
          | inr d ↦ elim (Bool-cases (queue_paused w.ctl)) [
            | inl p ↦ simp (d, p) (inl ended)
            | inr p ↦
                let v = interfere w in
                simp (d, p)
                  (SentOnce-from job.random_id w v
                    (settle_attempt s x job channel left retry a
                      (upload_once s x job channel metadata a v) again)
                    (interfere-submitted w)
                    (settle-SentOnce left retry a v (upload_once s x job channel metadata a v)
                      (upload_once-SentOnce metadata a v)))
          ]
        ]

    saved-SentOnce :
        (left : List ℕ) (retry : ℕ) (metadata : VideoMetadata) (a : ℕ) (w : World)
        (p : World × Persisted)
        → p.0.submitted ≡ w.submitted
        → SentOnce job.random_id w (attempt_saved s x job channel left retry metadata a p again)
    saved-SentOnce left retry metadata a w (u, failed t) q = inl q
    saved-SentOnce left retry metadata a w (u, saved) q =
        SentOnce-from job.random_id w (interfere u)
          (checked_attempt s x job channel left retry metadata a (interfere u) again)
          (interfere-submitted u ∙ q) (checked-SentOnce left retry metadata a (interfere u))
    saved-SentOnce left retry metadata a w (u, changed) q =
        SentOnce-from job.random_id w (interfere u)
          (checked_attempt s x job channel left retry metadata a (interfere u) again)
          (interfere-submitted u ∙ q) (checked-SentOnce left retry metadata a (interfere u))

    begun-SentOnce :
        (left : List ℕ) (retry : ℕ) (metadata : VideoMetadata) (b : Begun) (w : World)
        → SentOnce job.random_id w (attempt_begun s x job channel left retry metadata b w again)
    begun-SentOnce left retry metadata (declined e) w = inl refl
    begun-SentOnce left retry metadata (begun c) w =
        let v = record w { ctl = c } in
        saved-SentOnce left retry metadata c.active_attempt w (persist (interfere v))
          (persist-submitted (interfere v) ∙ interfere-submitted v)

    verified-SentOnce :
        (left : List ℕ) (retry : ℕ) (r : Result Failure VideoMetadata) (w : World)
        → SentOnce job.random_id w (attempt_verified s x job channel left retry r w again)
    verified-SentOnce left retry (err e) w = inl refl
    verified-SentOnce left retry (ok metadata) w =
        refused-SentOnce job.random_id w (is_done x w) _ _ (
          begun-SentOnce left retry metadata
            (begin_attempt retry job.id x.own metadata (s.now retry) w.ctl) w)

    round-SentOnce :
        (left : List ℕ) (retry : ℕ) (w : World)
        → SentOnce job.random_id w (attempt_round s x job channel left retry w again)
    round-SentOnce left retry w =
        let v = interfere w in
        refused-SentOnce job.random_id w (is_done x w) _ _ (
          refused-SentOnce job.random_id w (queue_paused w.ctl) _ _ (
            SentOnce-from job.random_id w v
              (attempt_verified s x job channel left retry (s.verify retry job) v again)
              (interfere-submitted w) (verified-SentOnce left retry (s.verify retry job) v)))

  loop-SentOnce :
      (left : List ℕ) (retry : ℕ) (w : World)
      → SentOnce job.random_id w (retry_loop s x job channel left retry w)
  unfolding retry_loop
  loop-SentOnce [] retry w =
      round-SentOnce (λ u. (u, err (plain_failure ""))) (λ u. inl refl) [] retry w
  loop-SentOnce (d ∷ ds) retry w =
      round-SentOnce (retry_loop s x job channel ds (suc retry)) (loop-SentOnce ds (suc retry))
        (d ∷ ds) retry w

  -- All attempts of a job together submit its message at most once, whatever the others do: once
  -- with the job's random id where the upload succeeds; where it fails, not at all, or once and the
  -- error says that the outcome is unknown.
  pub upload_job-SentOnce :
      (w : World) → SentOnce job.random_id w (upload_job_with_retry s x job channel w)
  unfolding upload_job_with_retry
  upload_job-SentOnce w = loop-SentOnce s.delays 0 w
