-- ===== src/Edit/Plain.antt =====
-- The operations that only edit the job list (RemoveCompleted, ResetJobs, ApplyUploadLimit, AddJobs
-- and Scan of internal/app/queue_edit.go), as one.
use telegram_uploader.Prelude.{
  ℕ, List, Option, none, String, ◌≡◌, true, refl, arith, sym, ◌∙◌, ap, Result, ok, ok_inj,
}
use telegram_uploader.Model.{Job}
use telegram_uploader.Queue.{preserve_active_progress}
use telegram_uploader.Controller.{Controller, Err}
use telegram_uploader.World.Honest.{IsHonestWorld, SameDurable}
use telegram_uploader.World.Reached.{Reached}
use telegram_uploader.World.{World, publish, commit_candidate}
use telegram_uploader.Edit.Protocol.{Ran, stopped, published, refused, cancel-ctl, edit-Ran}
use telegram_uploader.Edit.{
  Decision, stop, propose, Candidate, edit, Proposal, nothing, edited, plain, plain_candidate,
}

-- What a successful edit by `f` has done, seen from a state `d` that it met: nothing, or it made the
-- controller `e` hold the jobs proposed for a snapshot that agrees with `d` on durable state.
pub data Edited {A : Type 0} (f : Controller → Proposal A) (d e : Controller) (a : A) : Type 0 where
  untouched : f d ≡ nothing a → e ≡ d → Edited f d e a
  replaced :
      (c : Controller) (jobs : List Job) (folder : String)
      → SameDurable c d
      → f c ≡ edited jobs folder a
      → e.jobs ≡ preserve_active_progress d.active_id d.jobs jobs
      → Edited f d e a

commit_candidate-jobs :
    (jobs : List Job) (folder : String) (c : Controller)
    → (commit_candidate jobs folder c).jobs ≡ preserve_active_progress c.active_id c.jobs jobs
unfolding commit_candidate publish
commit_candidate-jobs jobs folder c = refl

plain-cases :
    {A : Type 0} (c : Controller) (q : Proposal A) {d : Controller} {k : Option ℕ}
    {r : Result Err A}
    → plain c q ≡ stop d k r
    → (a : A) × (q ≡ nothing a) × (d ≡ c) × (k ≡ none) × (r ≡ ok a)
plain-cases c (nothing a) e = (a, refl, ground arith, ground arith, ground arith)
plain-cases c (edited jobs folder a) e = cc

plain-propose :
    {A : Type 0} (c : Controller) (q : Proposal A) {p : Candidate A}
    → plain c q ≡ propose p
    → (jobs : List Job) × (folder : String) × (a : A) × (q ≡ edited jobs folder a)
      × (p ≡ plain_candidate c jobs folder a)
plain-propose c (nothing a) e = cc
plain-propose c (edited jobs folder a) e = (jobs, folder, a, refl, ground arith)

module _ {A : Type 0} (f : Controller → Proposal A) where
  abbrev pub decide : Controller → Decision A
  decide c = plain c (f c)

  Ran-Edited :
      {w : World} {x : World × Result Err A} (a : A)
      → Ran decide w x
      → x.1 ≡ ok a
      → (u : World) × Reached w u × Edited f u.ctl x.0.ctl a
  Ran-Edited a (stopped {u = u} reached {c = d} {k = k} e) q =
      let (b, e0, e1, e2, e3) = plain-cases u.ctl (f u.ctl) e in
      (
        u,
        reached,
        untouched (e0 ∙ ap nothing (ok_inj (sym e3 ∙ q)))
            (cancel-ctl k (record u { ctl = d }) ∙ e1),
      )
  Ran-Edited a (published c {u = u} {p = p} reached e same durable) q =
      let (jobs, folder, b, e0, e1) = plain-propose c (f c) e in
      let v = p.publish u.ctl in
      let run = λ (g : Candidate A). g.publish u.ctl in
      (
        u,
        reached,
        replaced c jobs folder durable
            (e0 ∙ ap (edited jobs folder) (ap (λ (g : Candidate A). (run g).2) (sym e1) ∙ ok_inj q))
            (ap (λ (d : Controller). d.jobs)
                (cancel-ctl v.1 (record u { ctl = v.0 }) ∙ ap (λ (g : Candidate A). (run g).0) e1)
              ∙ commit_candidate-jobs jobs folder u.ctl),
      )
  Ran-Edited a (refused c t reached e) q = cc

  -- The result of a job-list edit that reports success, seen from a state that it met.
  pub plain-Edited :
      (w : World)
      → IsHonestWorld w
      → w.ctl.has_store ≡ true
      → (a : A) → (edit decide w).1 ≡ ok a
      → (u : World) × Reached w u × Edited f u.ctl (edit decide w).0.ctl a
  plain-Edited w h s a q = Ran-Edited a (edit-Ran decide w h s) q
