-- ===== src/Actions/Rollback.antt =====
-- What a job action of internal/app/job_actions.go leaves in memory and on disk, by the outcome of
-- its save, when no other goroutine acts.
use telegram_uploader.Prelude.{
  ℕ, ◌==◌, ==_iff, map, subst, true, [], Option, none, some, String, ◌≡◌, refl, ap, sym, ◌∙◌,
  Result, ok, err, get_elem?, if◌then◌else◌,
}
use telegram_uploader.Model.{Job}
use telegram_uploader.Queue.{find_job_index, modify}
use telegram_uploader.Queue.Lookup.{find_job_index-modify, modify_undo}
use telegram_uploader.Controller.{Controller, Err}
use telegram_uploader.World.Honest.{settled, preserve-settled}
use telegram_uploader.World.Persist.{interfere_quiet, save_contents-rest}
use telegram_uploader.World.Rounds.{IsOnDisk, persist_quiet}
use telegram_uploader.World.{World, Persisted, interfere, persist, save_contents, contents, verdict}
use telegram_uploader.Actions.{assign_job, restore, after_persist, mutate}

-- The two ends of a job action that changes the job at `i` by `f`: success, or a failed save.
abbrev pub Ended : ℕ → (Job → Job) → World → World × Result Err (Unit {0}) → Type 0
Ended i f w (u, ok a) = (u.ctl.jobs ≡ modify i f w.ctl.jobs) × IsOnDisk u
Ended i f w (u, err e) = u.ctl.jobs ≡ w.ctl.jobs

module _ (id : String) (i : ℕ) (before : Job) (f : Job → Job) (same : (j : Job) → (f j).id ≡ j.id)
    (w : World) (found : find_job_index w.ctl.jobs id ≡ some i)
    (there : get_elem? w.ctl.jobs i ≡ some before) (quiet : w.env ≡ []) (last_error : String) where
  -- The world right after the change.
  abbrev changed_world : World
  changed_world = record w { ctl = assign_job i f last_error w.ctl }

  restored :
      (u : World)
      → u.ctl ≡ changed_world.ctl
      → (restore (find_job_index u.ctl.jobs id) before u.ctl).jobs ≡ w.ctl.jobs
  restored u e = rw e (
      rw (find_job_index-modify id f same i w.ctl.jobs, found)
        (modify_undo f i w.ctl.jobs before there))

  -- The controller that the rollback leaves.
  abbrev rolled_back : World → Controller
  rolled_back u =
      if u.ctl.queue_revision == changed_world.ctl.queue_revision
      then restore (find_job_index u.ctl.jobs id) before u.ctl
      else u.ctl

  rolled_back-jobs : (u : World) → u.ctl ≡ changed_world.ctl → (rolled_back u).jobs ≡ w.ctl.jobs
  rolled_back-jobs u e =
      let current : (u.ctl.queue_revision == changed_world.ctl.queue_revision) ≡ true =
        (==_iff _ _).1 (ap (λ (c : Controller). c.queue_revision) e) in
      ap (λ b. (if b then restore (find_job_index u.ctl.jobs id) before u.ctl else u.ctl).jobs)
        current
      ∙ restored u e

  after_persist-Ended :
      (u : World) (failure : Option String)
      → u.ctl ≡ changed_world.ctl
      → u.env ≡ []
      → (failure ≡ none
          → u.disk
            ≡ some (contents changed_world.ctl changed_world.ctl.jobs w.ctl.channel w.ctl.paused))
      → Ended i f w
          (after_persist id before changed_world.ctl.queue_revision (verdict failure true) u)
  after_persist-Ended u none e q d = (
    ap (λ (c : Controller). c.jobs) e,
    record {
      q = contents changed_world.ctl changed_world.ctl.jobs w.ctl.channel w.ctl.paused;
      file = d refl;
      jobs =
          preserve-settled changed_world.ctl.active_id changed_world.ctl.jobs changed_world.ctl.jobs
          ∙ ap (λ (c : Controller). map settled c.jobs) (sym e);
      channel = ap (λ (c : Controller). c.channel) (sym e);
      paused = ap (λ (c : Controller). c.paused) (sym e);
    },
  )
  after_persist-Ended u (some t) e q d =
      let alone = interfere_quiet u q in
      let still = ap (λ (v : World). v.env) alone ∙ q in
      let v = record (interfere u) { ctl = rolled_back (interfere u) } in
      ap (λ (x : World). x.ctl.jobs) (interfere_quiet v still)
      ∙ rolled_back-jobs (interfere u) (ap (λ (x : World). x.ctl) alone ∙ e)

  -- A job action that reports success has changed exactly the job at `i`, and the queue file holds
  -- the result; one that reports an error of the store leaves the jobs as they were.
  pub mutate-Ended : w.ctl.has_store ≡ true → Ended i f w (mutate id i before f last_error w)
  unfolding mutate
  mutate-Ended s =
      let c = changed_world.ctl in
      let q = contents c c.jobs w.ctl.channel w.ctl.paused in
      let rest = save_contents-rest q changed_world in
      let ended =
        after_persist-Ended (save_contents q changed_world).0 (save_contents q changed_world).1
          rest.0 (rest.1 ∙ quiet) rest.2 in
      subst
        (λ (p : World × Persisted). Ended i f w (after_persist id before c.queue_revision p.1 p.0))
        (sym
          (ap persist (interfere_quiet changed_world quiet) ∙ persist_quiet changed_world quiet s))
        ended
