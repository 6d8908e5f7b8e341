-- ===== src/Run/Removal.antt =====
-- The loop of removeAfterTerminalPersist (internal/app/runner.go) ends.
use telegram_uploader.Prelude.{
  ℕ, zero, suc, ◌<◌, ◌==◌, ==_iff, true, List, [], Option, none, some, String, str_eq, ◌≡◌, ◌≢◌,
  refl, arith, ap, sym, ◌∙◌, subst, length, nil-or-pos, Bool-cases, inl, inr,
}
use telegram_uploader.Model.{Job}
use telegram_uploader.Queue.{find_job_index, filtered_jobs}
use telegram_uploader.Controller.{Controller}
use telegram_uploader.World.Persist.{
  interfere_quiet, interfere-env, persist_candidate-env, persist_candidate_alone,
}
use telegram_uploader.World.{World, Persisted, saved, changed, failed, interfere, persist_candidate}
use telegram_uploader.Run.{
  removal_saved, removal_round, removal_loop, remove_after_terminal_persist,
}

module _ (id : String) (remaining : List Job) (folder : String) (revision : ℕ)
    (again : World → World × Persisted) where
  -- After an interference there are rounds left.
  removal_saved_busy :
      (n : ℕ)
      → ((v : World) → length v.env < n → (again v).1 ≢ changed)
      → (p : World × Persisted) → length p.0.env < n
      → (removal_saved id remaining folder revision p again).1 ≢ changed
  removal_saved_busy n ends (u, failed t) h = λ q. cc
  removal_saved_busy n ends (u, changed) h = ends (interfere u) (omega (arith, h, interfere-env u))
  removal_saved_busy n ends (u, saved) h =
      elim (Bool-cases ((interfere u).ctl.queue_revision == revision)) [
        | inl e ↦ simp e (λ q. cc)
        | inr e ↦ simp e (
            ends (interfere (interfere u))
              (omega (arith, h, interfere-env u, interfere-env (interfere u))))
      ]

  -- With nobody else acting the revision still holds.
  removal_saved_quiet :
      (p : World × Persisted)
      → p.1 ≢ changed
      → p.0.ctl.queue_revision ≡ revision
      → p.0.env ≡ []
      → (removal_saved id remaining folder revision p again).1 ≢ changed
  removal_saved_quiet (u, failed t) n r e = λ q. cc
  removal_saved_quiet (u, changed) n r e = absurd (n refl)
  removal_saved_quiet (u, saved) n r e =
      let same : ((interfere u).ctl.queue_revision == revision) ≡ true =
        (==_iff _ _).1 (ap (λ (v : World). v.ctl.queue_revision) (interfere_quiet u e) ∙ r) in
      simp same (λ q. cc)

removal_round_ends :
    (id : String) (n : ℕ) (r : Option ℕ) (w : World) (again : World → World × Persisted)
    → length w.env < suc n
    → ((v : World) → length v.env < n → (again v).1 ≢ changed)
    → (removal_round id r w again).1 ≢ changed
removal_round_ends id n none w again h ends = λ q. cc
removal_round_ends id n (some i) w again h ends =
    let c = w.ctl in
    let remaining = (filtered_jobs c.jobs (λ j. str_eq j.id id)).0 in
    let save = persist_candidate remaining c.channel c.paused c.queue_revision in
    elim (nil-or-pos w.env) [
      | inl quiet ↦
          let alone = persist_candidate_alone remaining c.channel c.paused w quiet in
          subst
            (λ (u : World).
              (removal_saved id remaining c.folder c.queue_revision (save u) again).1 ≢ changed)
            (sym (interfere_quiet w quiet))
            (removal_saved_quiet id remaining c.folder c.queue_revision again (save w) alone.0
              (ap (λ (d : Controller). d.queue_revision) alone.1) alone.2)
      | inr busy ↦
          removal_saved_busy id remaining c.folder c.queue_revision again n ends
            (save (interfere w))
            (omega (
              arith,
              h,
              busy,
              interfere-env w,
              persist_candidate-env remaining c.channel c.paused c.queue_revision (interfere w),
            ))
    ]

removal_loop_ends :
    (id : String) (n : ℕ) (w : World) → length w.env < n → (removal_loop id n w).1 ≢ changed
unfolding removal_loop
removal_loop_ends id zero w h = absurd (omega arith)
removal_loop_ends id (suc n) w h =
    removal_round_ends id n (find_job_index w.ctl.jobs id) w (removal_loop id n) h
      (removal_loop_ends id n)

-- The removal of a job after its end comes to an end, with success or an error of the store,
-- whatever other goroutines do meanwhile.
pub remove_after_terminal_persist-ne-changed :
    (id : String) (w : World) → (remove_after_terminal_persist id w).1 ≢ changed
unfolding remove_after_terminal_persist
remove_after_terminal_persist-ne-changed id w = removal_loop_ends id _ w (omega arith)
