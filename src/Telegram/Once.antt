-- ===== src/Telegram/Once.antt =====
-- How often one call of UploadVideo (internal/telegram/upload.go) submits its message.
use telegram_uploader.Prelude.{
  Bool, true, false, not, ◌&&◌, List, [], ◌∷◌, Option, none, some, if◌then◌else◌, Result, ok, err,
  ◌≡◌, ◌⊎◌, refl, arith, ap, subst, ◌∙◌, Bool-cases, inl, inr,
}
use telegram_uploader.Prelude.Int.{ℤ, pos, ltb_ℤ, is_zero}
use telegram_uploader.Model.{Progress, Channel}
use telegram_uploader.World.{World, interfere}
use telegram_uploader.World.Submitted.{interfere-submitted}
use telegram_uploader.Attempt.{Failure}
use telegram_uploader.Telegram.{UploadRequest}
use telegram_uploader.Telegram.Channel.{validate_channel}
use telegram_uploader.Telegram.Upload.{
  Transport, FileInfo, Sent, refused, message, no_message, prepare_upload_request, sent_as, submit,
  reserve_and_submit, unless_done, allowed, deliver, transferred, after_transfer, transfer_file,
  check_size, channel_checked, upload_video,
}

-- A message is submitted once where the upload succeeds; where it fails it is not submitted, or the
-- error says that the outcome is unknown.
abbrev pub SentOnce : ℤ → World → World × Result Failure ℤ → Type 0
SentOnce id w (u, ok m) = u.submitted ≡ id ∷ w.submitted
SentOnce id w (u, err e) =
    (u.submitted ≡ w.submitted) ⊎ ((u.submitted ≡ id ∷ w.submitted) × (e.is_outcome_unknown ≡ true))

pub SentOnce-from :
    (id : ℤ) (w v : World) (x : World × Result Failure ℤ)
    → v.submitted ≡ w.submitted
    → SentOnce id v x
    → SentOnce id w x
SentOnce-from id w v (u, ok m) e d = d ∙ ap (◌∷◌ id) e
SentOnce-from id w v (u, err f) e (inl d) = inl (d ∙ e)
SentOnce-from id w v (u, err f) e (inr d) = inr (d.0 ∙ ap (◌∷◌ id) e, d.1)

-- A check that fails submits nothing.
pub refused-SentOnce :
    (id : ℤ) (w : World) (b : Bool) (e : Failure) (x : World × Result Failure ℤ)
    → SentOnce id w x
    → SentOnce id w (if b then (w, err e) else x)
refused-SentOnce id w true e x h = inl refl
refused-SentOnce id w false e x h = h

module _ (t : Transport) where
  sent_as-SentOnce :
      (id : ℤ) (w v : World) (s : Sent)
      → v.submitted ≡ id ∷ w.submitted
      → SentOnce id w (sent_as t v s)
  sent_as-SentOnce id w v (refused e) q = inr (q, refl)
  sent_as-SentOnce id w v (message m) q = q
  sent_as-SentOnce id w v (no_message e) q = inr (q, refl)

  submit-SentOnce : (r : UploadRequest) (w : World) → SentOnce r.random_id w (submit t r w)
  unfolding submit
  submit-SentOnce r w =
      let u = record w { submitted = r.random_id ∷ w.submitted } in
      let v = interfere u in
      sent_as-SentOnce r.random_id w v (t.send_media r v) (interfere-submitted u)

  reserve-SentOnce :
      (r : UploadRequest) (w : World) → SentOnce r.random_id w (reserve_and_submit t r w)
  reserve-SentOnce r w =
      let u = interfere w in
      elim (Bool-cases (t.slot_free u)) [
        | inl e ↦ simp e (
            SentOnce-from r.random_id w u (submit t r u) (interfere-submitted w)
              (submit-SentOnce r u))
        | inr e ↦ simp e (inl (interfere-submitted w))
      ]

  unless_done-SentOnce :
      (id : ℤ) (body : World → World × Result Failure ℤ) (w : World)
      → SentOnce id w (body w)
      → SentOnce id w (unless_done t body w)
  unless_done-SentOnce id body w h = elim (Bool-cases (t.is_done w)) [
    | inl e ↦ simp e (inl refl)
    | inr e ↦ simp e h
  ]

  allowed-SentOnce :
      (r : UploadRequest) (w : World) (p : World × Option Failure)
      → p.0.submitted ≡ w.submitted
      → SentOnce r.random_id w (allowed t r p)
  allowed-SentOnce r w (u, some e) q = inl q
  allowed-SentOnce r w (u, none) q =
      SentOnce-from r.random_id w u (allowed t r (u, none)) q
        (unless_done-SentOnce r.random_id (reserve_and_submit t r) u (reserve-SentOnce r u))

  module _ (before : World → World × Option Failure)
      (before_keeps : (w : World) → (before w).0.submitted ≡ w.submitted)
      (progress : Progress → World → World)
      (progress_keeps : (p : Progress) (w : World) → (progress p w).submitted ≡ w.submitted) where
    deliver-submitted :
        (ps : List Progress) (w : World) → (deliver t progress ps w).submitted ≡ w.submitted
    unfolding deliver
    deliver-submitted [] w = refl
    deliver-submitted (p ∷ ps) w = deliver-submitted ps (progress p w) ∙ progress_keeps p w

    transferred-SentOnce :
        (r : UploadRequest) (f : Option Failure) (w : World)
        → SentOnce r.random_id w (transferred t r before f w)
    transferred-SentOnce r (some e) w = inl refl
    transferred-SentOnce r none w =
        unless_done-SentOnce r.random_id (λ u. allowed t r (before u)) w
          (allowed-SentOnce r w (before w) (before_keeps w))

    after_transfer-SentOnce :
        (r : UploadRequest) (x : List Progress × Option Failure) (w : World)
        → SentOnce r.random_id w (after_transfer t r before progress x w)
    after_transfer-SentOnce r (ps, f) w =
        let u = deliver t progress ps w in
        SentOnce-from r.random_id w u (transferred t r before f u) (deliver-submitted ps w)
          (transferred-SentOnce r f u)

    transfer_file-SentOnce :
        (r : UploadRequest) (w : World)
        → SentOnce r.random_id w (transfer_file t r before progress w)
    transfer_file-SentOnce r w =
        let u = interfere w in
        elim (Bool-cases (t.acquired u)) [
          | inl e ↦ simp e (
              SentOnce-from r.random_id w u (after_transfer t r before progress (t.transfer r u) u)
                (interfere-submitted w) (after_transfer-SentOnce r (t.transfer r u) u))
          | inr e ↦ simp e (inl (interfere-submitted w))
        ]

    prepare-random_id : (r : UploadRequest) → (prepare_upload_request t r).random_id ≡ r.random_id
    unfolding prepare_upload_request
    prepare-random_id r = ground arith

    check_size-SentOnce :
        (r : UploadRequest) (x : Result Failure FileInfo) (w : World)
        → SentOnce r.random_id w (check_size t r before progress x w)
    check_size-SentOnce r (err e) w = inl refl
    check_size-SentOnce r (ok info) w =
        let big = ltb_ℤ (pos 0) (t.max_upload_bytes w) && ltb_ℤ (t.max_upload_bytes w) info.size in
        let s = prepare_upload_request t r in
        refused-SentOnce r.random_id w (not info.is_regular) _ _ (
          refused-SentOnce r.random_id w big _ (transfer_file t s before progress w) (
            subst (λ id. SentOnce id w (transfer_file t s before progress w)) (prepare-random_id r)
              (transfer_file-SentOnce s w)))

    channel_checked-SentOnce :
        (r : UploadRequest) (x : Result Failure Channel) (w : World)
        → SentOnce r.random_id w (channel_checked t r before progress x w)
    channel_checked-SentOnce r (err e) w = inl refl
    channel_checked-SentOnce r (ok c) w =
        let s = record r { channel = c } in check_size-SentOnce s (t.stat s) w

    -- UploadVideo, with callbacks that submit nothing: where it succeeds it has submitted the
    -- message, once, with the random id of the request; where it fails it has not, or it has done so
    -- once and reports the outcome as unknown.
    pub upload_video-SentOnce :
        (r : UploadRequest) (w : World)
        → SentOnce r.random_id w (upload_video t r before progress w)
    unfolding upload_video
    upload_video-SentOnce r w =
        let u = interfere w in
        let x = validate_channel (t.has_api u) (t.resolved_hash u) (t.get_channels u) r.channel in
        refused-SentOnce r.random_id w (is_zero r.random_id) _ _ (
          refused-SentOnce r.random_id w (not (t.accepting w)) _ _ (
            refused-SentOnce r.random_id w (not (t.has_api w)) _ _ (
              refused-SentOnce r.random_id w (not (t.has_upload_api w)) _ _ (
                SentOnce-from r.random_id w u (channel_checked t r before progress x u)
                  (interfere-submitted w) (channel_checked-SentOnce r x u)))))
