-- ===== src/Actions/Acted.antt =====
-- Every branch of CancelJob, Retry, Skip and MarkSent (internal/app/job_actions.go).
use telegram_uploader.Prelude.{
  ℕ, true, false, [], Option, none, some, String, ◌≡◌, refl, arith, ◌∙◌, Result, ok, err, eq_iff,
  Bool-cases, Option-cases, inl, inr, str_eq, contains, not, ◌&&◌,
}
use telegram_uploader.Model.{Job}
use telegram_uploader.Queue.Lookup.{modify_at}
use telegram_uploader.Controller.{Err}
use telegram_uploader.World.{World}
use telegram_uploader.Actions.Rollback.{Ended, mutate-Ended}
use telegram_uploader.Actions.{
  lookup_job, mutate, cancel_job, retry_job, skip_job, mark_sent, cancel_as, retry_as, skip_as,
  mark_as, is_cancellable, is_retryable, is_skippable, is_confirming, is_transferring, cancel_found,
  retry_found, retry_looked_up, skip_found, mark_found, cancel_active,
}
use telegram_uploader.Actions.Steps.{
  Action, cancels, retries, skips, marks_sent, perform, Allowed, SameJob, Acted, unchanged,
  signalled, stepped, cancel_edge, retry_edge, skip_edge, mark_edge, lookup_job-found,
  retry_as-SameJob,
}

module _ (a : Action) (id : String) (w : World) (quiet : w.env ≡ [])
    (s : w.ctl.has_store ≡ true) where
  -- A change of the job that was found ends as an allowed step or as nothing.
  Ended-Acted :
      (i : ℕ) (j : Job) (f : Job → Job)
      → lookup_job w.ctl.jobs id ≡ some (i, j)
      → contains w.ctl.pending_removal id ≡ false
      → Allowed a j.state (f j).state
      → SameJob j (f j)
      → (r : World × Result Err (Unit {0})) → Ended i f w r
      → Acted a id w r
  Ended-Acted i j f e p allowed same (u, ok x) d =
      let (found, there) = lookup_job-found id w.ctl.jobs e in
      stepped i j (f j) found there allowed same p (d.0 ∙ modify_at f i w.ctl.jobs j there) d.1
  Ended-Acted i j f e p allowed same (u, err x) d = unchanged d

  mutate-Acted :
      (i : ℕ) (j : Job) (f : Job → Job) (last_error : String)
      → lookup_job w.ctl.jobs id ≡ some (i, j)
      → contains w.ctl.pending_removal id ≡ false
      → ((x : Job) → (f x).id ≡ x.id)
      → Allowed a j.state (f j).state
      → SameJob j (f j)
      → Acted a id w (mutate id i j f last_error w)
  mutate-Acted i j f last_error e p keeps allowed same =
      let (found, there) = lookup_job-found id w.ctl.jobs e in
      Ended-Acted i j f e p allowed same (mutate id i j f last_error w)
        (mutate-Ended id i j f keeps w found there quiet last_error s)

module _ (id : String) (w : World) (quiet : w.env ≡ []) (s : w.ctl.has_store ≡ true) where
  skip_found-Acted :
      (i : ℕ) (j : Job)
      → lookup_job w.ctl.jobs id ≡ some (i, j)
      → contains w.ctl.pending_removal id ≡ false
      → Acted skips id w (skip_found id (i, j) w)
  skip_found-Acted i j e p =
      elim (Bool-cases (not (str_eq j.id w.ctl.active_id) && is_skippable j.state)) [
        | inl t ↦ simp t (
            mutate-Acted skips id w quiet s i j skip_as w.ctl.last_error e p (λ x. refl)
              (skip_edge j.state (ground arith)) (ground arith))
        | inr t ↦ simp t (unchanged refl)
      ]

  mark_found-Acted :
      (now i : ℕ) (j : Job)
      → lookup_job w.ctl.jobs id ≡ some (i, j)
      → contains w.ctl.pending_removal id ≡ false
      → Acted (marks_sent now) id w (mark_found now id (i, j) w)
  mark_found-Acted now i j e p = elim (Bool-cases (is_confirming j.state)) [
    | inl t ↦ simp t (
        mutate-Acted (marks_sent now) id w quiet s i j (mark_as now) w.ctl.last_error e p
          (λ x. refl) (mark_edge now j.state t) (ground arith))
    | inr t ↦ simp t (unchanged refl)
  ]

  retry_found-Acted :
      (i : ℕ) (j : Job)
      → lookup_job w.ctl.jobs id ≡ some (i, j)
      → Acted retries id w (retry_found id (i, j) w)
  retry_found-Acted i j e = elim (Bool-cases (contains w.ctl.pending_removal id)) [
    | inl p ↦ simp p (unchanged refl)
    | inr p ↦ elim (Bool-cases (str_eq j.id w.ctl.active_id && is_transferring j.state)) [
      | inl t ↦ simp (p, t) (unchanged refl)
      | inr t ↦ elim (Bool-cases (is_retryable j.state)) [
        | inl y ↦
            simp (p, t, y)
              (mutate-Acted retries id w quiet s i j retry_as "" e p (λ x. (retry_as-SameJob x).id)
                (retry_edge j.state y) (retry_as-SameJob j))
        | inr y ↦ simp (p, t, y) (unchanged refl)
      ]
    ]
  ]

  cancel_active-Acted :
      (k : Option ℕ)
      → w.ctl.active_cancel ≡ k
      → w.ctl.active_id ≡ id
      → Acted cancels id w (cancel_active id k w)
  cancel_active-Acted none e a = unchanged refl
  cancel_active-Acted (some k) e a = signalled refl a e refl refl refl

  cancel_found-Acted :
      (i : ℕ) (j : Job)
      → lookup_job w.ctl.jobs id ≡ some (i, j)
      → Acted cancels id w (cancel_found id (i, j) w)
  cancel_found-Acted i j e = elim (Bool-cases (contains w.ctl.pending_removal id)) [
    | inl p ↦ simp p (unchanged refl)
    | inr p ↦ elim (Bool-cases (is_transferring j.state && str_eq w.ctl.active_id id)) [
      | inl t ↦
          simp (p, t)
            (cancel_active-Acted w.ctl.active_cancel refl
              ((eq_iff w.ctl.active_id id).0 (ground arith)))
      | inr t ↦ elim (Bool-cases (is_cancellable j.state)) [
        | inl y ↦
            simp (p, t, y)
              (mutate-Acted cancels id w quiet s i j cancel_as w.ctl.last_error e p (λ x. refl)
                (cancel_edge j.state y) (ground arith))
        | inr y ↦ simp (p, t, y) (unchanged refl)
      ]
    ]
  ]

  cancel_job-Acted : Acted cancels id w (cancel_job id w)
  unfolding cancel_job
  cancel_job-Acted = elim (Bool-cases (str_eq id "")) [
    | inl t ↦ simp t (unchanged refl)
    | inr t ↦ elim (Option-cases (lookup_job w.ctl.jobs id)) [
      | inl e ↦ simp (t, e) (unchanged refl)
      | inr (found, e) ↦ simp (t, e) (cancel_found-Acted found.0 found.1 e)
    ]
  ]

  retry_looked_up-Acted :
      (r : Option (ℕ × Job))
      → lookup_job w.ctl.jobs id ≡ r
      → Acted retries id w (retry_looked_up id r w)
  retry_looked_up-Acted none e = unchanged refl
  retry_looked_up-Acted (some (i, j)) e = retry_found-Acted i j e

  retry_job-Acted : Acted retries id w (retry_job id w)
  unfolding retry_job
  retry_job-Acted = retry_looked_up-Acted (lookup_job w.ctl.jobs id) refl

  skip_job-Acted : Acted skips id w (skip_job id w)
  unfolding skip_job
  skip_job-Acted = elim (Bool-cases (contains w.ctl.pending_removal id)) [
    | inl p ↦ simp p (unchanged refl)
    | inr p ↦ elim (Option-cases (lookup_job w.ctl.jobs id)) [
      | inl e ↦ simp (p, e) (unchanged refl)
      | inr (found, e) ↦ simp (p, e) (skip_found-Acted found.0 found.1 e p)
    ]
  ]

  mark_sent-Acted : (now : ℕ) → Acted (marks_sent now) id w (mark_sent now id w)
  unfolding mark_sent
  mark_sent-Acted now = elim (Bool-cases (contains w.ctl.pending_removal id)) [
    | inl p ↦ simp p (unchanged refl)
    | inr p ↦ elim (Option-cases (lookup_job w.ctl.jobs id)) [
      | inl e ↦ simp (p, e) (unchanged refl)
      | inr (found, e) ↦ simp (p, e) (mark_found-Acted now found.0 found.1 e p)
    ]
  ]

-- A job action of the user, with nobody else acting and a store present, leaves the jobs as they
-- were when it reports an error, a failed save included. When it reports success, either it has
-- cancelled the context of the active transfer, or one job, found under its id and not waiting for
-- removal, has taken an allowed edge of the state diagram with its identity kept, and the queue file
-- holds the result.
pub perform-Acted :
    (a : Action) (id : String) (w : World)
    → w.env ≡ []
    → w.ctl.has_store ≡ true
    → Acted a id w (perform a id w)
perform-Acted cancels id w quiet s = cancel_job-Acted id w quiet s
perform-Acted retries id w quiet s = retry_job-Acted id w quiet s
perform-Acted skips id w quiet s = skip_job-Acted id w quiet s
perform-Acted (marks_sent now) id w quiet s = mark_sent-Acted id w quiet s now
