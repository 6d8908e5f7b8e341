-- ===== src/World/Reached.antt =====
-- The worlds between the start of an operation and its effect: others have acted and the queue file
-- may have been written, and the operation itself has not touched the controller.
use telegram_uploader.Prelude.{ℕ, ◌==◌, Bool, List, [], ◌≡◌, refl, Bool-cases, inl, inr, ◌∙◌}
use telegram_uploader.Model.{Job, Channel}
use telegram_uploader.Store.{Contents}
use telegram_uploader.World.Persist.{
  persist_candidate_current, persist_candidate_stale, persist_candidate_no_store,
  save_contents-rest, interfere_quiet, interfere_held_quiet,
}
use telegram_uploader.World.{
  World, persist_candidate, interfere, interfere_held, save_contents, contents, save_candidate,
}

pub data Reached (w : World) : World → Type 0 where
  here : Reached w w
  acted : {u : World} → Reached w u → Reached w (interfere u)
  acted_held : {u : World} → Reached w u → Reached w (interfere_held u)
  wrote : (q : Contents) {u : World} → Reached w u → Reached w (save_contents q u).0

module _ (jobs : List Job) (channel : Channel) (paused : Bool) (revision : ℕ) {w u : World}
    (r : Reached w u) where
  save_candidate-Reached : Reached w (save_candidate jobs channel paused revision u).0
  unfolding save_candidate
  save_candidate-Reached = acted_held (wrote (contents u.ctl jobs channel paused) r)

  -- Saving a candidate is such a passage.
  pub persist_candidate-Reached : Reached w (persist_candidate jobs channel paused revision u).0
  persist_candidate-Reached = elim (Bool-cases u.ctl.has_store) [
    | inl s ↦ elim (Bool-cases (u.ctl.queue_revision == revision)) [
      | inl e ↦
          rw (persist_candidate_current jobs channel paused revision u s e) save_candidate-Reached
      | inr e ↦ rw (persist_candidate_stale jobs channel paused revision u s e) r
    ]
    | inr s ↦ rw (persist_candidate_no_store jobs channel paused revision u s) r
  ]

-- With nobody else there, the controller is as it was at the start.
pub Reached-alone : {w u : World} → Reached w u → w.env ≡ [] → (u.ctl ≡ w.ctl) × (u.env ≡ [])
Reached-alone here e = (refl, e)
Reached-alone (acted {u = u} r) e =
    let before = Reached-alone r e in rw (interfere_quiet u before.1) before
Reached-alone (acted_held {u = u} r) e =
    let before = Reached-alone r e in rw (interfere_held_quiet u before.1) before
Reached-alone (wrote q {u = u} r) e =
    let before = Reached-alone r e in
    let rest = save_contents-rest q u in (rest.0 ∙ before.0, rest.1 ∙ before.1)
