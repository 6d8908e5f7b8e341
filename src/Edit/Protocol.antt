-- ===== src/Edit/Protocol.antt =====
-- The loop of the structural edits (internal/app/queue_edit.go) among other goroutines: it ends, and
-- it acts on the controller as the operation alone would at one moment.
use telegram_uploader.Prelude.{
  ℕ, zero, suc, ◌<◌, ◌≤◌, ◌-◌, ◌==◌, ==_iff, ==_refl, Bool, true, false, [], Option, none, some,
  String, ◌≡◌, refl, ◌≢◌, arith, length, nil-or-pos, inl, inr, sym, ◌∙◌, ap, Result, err, ◌⊎◌,
}
use telegram_uploader.Controller.{Controller, Err, storage}
use telegram_uploader.World.Honest.{
  IsHonestWorld, SameDurable, SameDurable-trans, interfere-SameDurable, interfere-keeps,
}
use telegram_uploader.World.Persist.{
  persist_candidate-env, persist_candidate-IsSaved, persist_candidate-Keeps, interfere_quiet,
  interfere-env, persist_candidate_alone,
}
use telegram_uploader.World.Reached.{Reached, here, acted, persist_candidate-Reached}
use telegram_uploader.World.{
  World, Persisted, saved, changed, failed, persist_candidate, interfere, set_persistence_error,
  cancel,
}
use telegram_uploader.Edit.{
  Decision, stop, propose, Candidate, edit_loop, edit_round, settle, publish_if, finish, edit,
}

-- How an operation may have ended. It returned at once from some moment's state; or its candidate,
-- made from the snapshot `c`, was published into a state with the snapshot's revision and durable
-- fields; or the save of a candidate failed, and only the error was recorded.
pub data Ran {A : Type 0} (decide : Controller → Decision A) (w : World)
    : World × Result Err A → Type 0 where
  stopped :
      {u : World}
      → Reached w u
      → {c : Controller} {k : Option ℕ} {r : Result Err A} → decide u.ctl ≡ stop c k r
      → Ran decide w (cancel k (record u { ctl = c }), r)
  published :
      (c : Controller) {u : World} {p : Candidate A}
      → Reached w u
      → decide c ≡ propose p
      → u.ctl.queue_revision ≡ c.queue_revision
      → SameDurable c u.ctl
      → Ran decide w (finish u (p.publish u.ctl))
  refused :
      (c : Controller) {u : World} (t : String) {p : Candidate A}
      → Reached w u
      → decide c ≡ propose p
      → Ran decide w (set_persistence_error t u, err (storage t))

pub cancel-ctl : (k : Option ℕ) (w : World) → (cancel k w).ctl ≡ w.ctl
cancel-ctl none w = refl
cancel-ctl (some k) w = refl

module _ {A : Type 0} (p : Candidate A) (w : World) where
  -- The save of a proposal.
  abbrev attempt : World × Persisted
  attempt = persist_candidate p.jobs p.channel p.paused w.ctl.queue_revision (interfere w)

  attempt-env : length attempt.0.env ≤ length w.env - 1
  attempt-env = omega (
    arith,
    interfere-env w,
    persist_candidate-env p.jobs p.channel p.paused w.ctl.queue_revision (interfere w),
  )

  attempt_quiet : w.env ≡ [] → (attempt.1 ≢ changed) × ((interfere attempt.0).ctl ≡ w.ctl)
  attempt_quiet e =
      let alone = persist_candidate_alone p.jobs p.channel p.paused w e in
      rw (interfere_quiet w e)
        (alone.0, ap (λ (u : World). u.ctl) (interfere_quiet _ alone.2) ∙ alone.1)

  attempt-Same :
      IsHonestWorld w
      → w.ctl.has_store ≡ true
      → attempt.1 ≡ saved
      → (interfere attempt.0).ctl.queue_revision ≡ w.ctl.queue_revision
      → SameDurable w.ctl (interfere attempt.0).ctl
  attempt-Same h s q e =
      let keeps = interfere-keeps w h in
      let done =
        persist_candidate-IsSaved p.jobs p.channel p.paused w.ctl.queue_revision (interfere w)
          keeps.0 (keeps.1 ∙ s) q in
      SameDurable-trans (interfere-SameDurable w h done.before) (
        SameDurable-trans done.same
          (interfere-SameDurable attempt.0 done.honest (e ∙ sym done.after)))

  attempt-keeps :
      IsHonestWorld w
      → IsHonestWorld (interfere attempt.0)
        × ((interfere attempt.0).ctl.has_store ≡ w.ctl.has_store)
  attempt-keeps h =
      let first = interfere-keeps w h in
      let second =
        persist_candidate-Keeps p.jobs p.channel p.paused w.ctl.queue_revision (interfere w)
          first.0 in
      let third = interfere-keeps attempt.0 second.0 in (third.0, third.1 ∙ second.1 ∙ first.1)

  attempt-Reached : {w0 : World} → Reached w0 w → Reached w0 (interfere attempt.0)
  attempt-Reached r =
      acted (persist_candidate-Reached p.jobs p.channel p.paused w.ctl.queue_revision (acted r))

  -- Where the round has to be repeated, somebody else has acted.
  attempt_busy :
      (n : ℕ)
      → length w.env < suc n
      → ((attempt.1 ≡ changed)
          ⊎ (((interfere attempt.0).ctl.queue_revision == w.ctl.queue_revision) ≡ false))
      → length (interfere attempt.0).env < n
  attempt_busy n h why = elim (nil-or-pos w.env) [
    | inr busy ↦ omega (arith, interfere-env attempt.0, attempt-env)
    | inl quiet ↦ absurd (elim why [
      | inl e ↦ (attempt_quiet quiet).0 e
      | inr e ↦ cc (
          sym (==_refl w.ctl.queue_revision)
          ∙ (rw (ap (λ (c : Controller). c.queue_revision) (attempt_quiet quiet).1) at e))
    ])
  ]

module _ {A : Type 0} (decide : Controller → Decision A) (w0 : World) where
  -- What is known of the later rounds.
  abbrev Later : ℕ → Type 0
  Later n =
      (u : World)
      → IsHonestWorld u
      → u.ctl.has_store ≡ true
      → length u.env < n
      → Reached w0 u
      → Ran decide w0 (edit_loop decide n u)

  module _ (n : ℕ) (later : Later n) (w : World) (h : IsHonestWorld w) (s : w.ctl.has_store ≡ true)
      (few : length w.env < suc n) (reached : Reached w0 w) where
    again :
        (p : Candidate A)
        → (((attempt p w).1 ≡ changed)
            ⊎ (((interfere (attempt p w).0).ctl.queue_revision == w.ctl.queue_revision) ≡ false))
        → Ran decide w0 (edit_loop decide n (interfere (attempt p w).0))
    again p why =
        let keeps = attempt-keeps p w h in
        later (interfere (attempt p w).0) keeps.0 (keeps.1 ∙ s) (attempt_busy p w n few why)
          (attempt-Reached p w reached)

    still_current :
        (p : Candidate A) (b : Bool)
        → decide w.ctl ≡ propose p
        → (attempt p w).1 ≡ saved
        → ((interfere (attempt p w).0).ctl.queue_revision == w.ctl.queue_revision) ≡ b
        → Ran decide w0 (publish_if b p (interfere (attempt p w).0) (edit_loop decide n))
    still_current p false e q b = again p (inr b)
    still_current p true e q b =
        let same = (==_iff _ _).0 b in
        published w.ctl (attempt-Reached p w reached) e same (attempt-Same p w h s q same)

    proposed :
        (p : Candidate A) (r : Persisted)
        → decide w.ctl ≡ propose p
        → (attempt p w).1 ≡ r
        → Ran decide w0 (settle p w.ctl.queue_revision r (attempt p w).0 (edit_loop decide n))
    proposed p (failed t) e q = refused w.ctl t (attempt-Reached p w reached) e
    proposed p changed e q = again p (inl q)
    proposed p saved e q = still_current p _ e q refl

    round-Ran :
        (d : Decision A) → decide w.ctl ≡ d → Ran decide w0 (edit_round d w (edit_loop decide n))
    round-Ran (stop c k r) e = stopped reached e
    round-Ran (propose p) e = proposed p (attempt p w).1 e refl

  edit_loop-Ran : (n : ℕ) → Later n
  unfolding edit_loop
  edit_loop-Ran zero u h s few r = absurd (omega arith)
  edit_loop-Ran (suc n) u h s few r = round-Ran n (edit_loop-Ran n) u h s few r (decide u.ctl) refl

-- Every structural edit ends, in one of three ways: it returns from a state that it met; or it
-- publishes a candidate into a state that differs from the candidate's snapshot in nothing durable;
-- or its save fails and only the error text changes. Until then others alone act on the controller;
-- they change durable state only with the revision, and the store is not nil.
pub edit-Ran :
    {A : Type 0} (decide : Controller → Decision A) (w : World)
    → IsHonestWorld w
    → w.ctl.has_store ≡ true
    → Ran decide w (edit decide w)
unfolding edit
edit-Ran decide w h s = edit_loop-Ran decide w (suc (length w.env)) w h s (omega arith) here
