-- ===== src/World/Submitted.antt =====
-- Saving and the actions of others submit no message.
use telegram_uploader.Prelude.{
  ℕ, zero, suc, ◌==◌, Bool, List, [], ◌∷◌, ◌≡◌, refl, arith, ◌∙◌, Bool-cases, inl, inr, length,
}
use telegram_uploader.Model.{Job, Channel}
use telegram_uploader.Store.{Contents}
use telegram_uploader.World.{
  World, Interference, Persisted, saved, changed, failed, interfere, interfere_with, interfere_held,
  interfere_held_with, save_contents, contents, save_candidate, persist_candidate, persist_loop,
  persist,
}

interfere_with-submitted :
    (is : List Interference) (w : World) → (interfere_with is w).submitted ≡ w.submitted
unfolding interfere_with
interfere_with-submitted [] w = refl
interfere_with-submitted (i ∷ is) w = refl

pub interfere-submitted : (w : World) → (interfere w).submitted ≡ w.submitted
unfolding interfere
interfere-submitted w = interfere_with-submitted w.env w

interfere_held_with-submitted :
    (is : List Interference) (w : World) → (interfere_held_with is w).submitted ≡ w.submitted
unfolding interfere_held_with
interfere_held_with-submitted [] w = refl
interfere_held_with-submitted (i ∷ is) w = refl

interfere_held-submitted : (w : World) → (interfere_held w).submitted ≡ w.submitted
unfolding interfere_held
interfere_held-submitted w = interfere_held_with-submitted w.env w

save_contents-submitted : (q : Contents) (w : World) → (save_contents q w).0.submitted ≡ w.submitted
unfolding save_contents
save_contents-submitted q w = ground arith

module _ (jobs : List Job) (channel : Channel) (paused : Bool) (revision : ℕ) (w : World) where
  save_candidate-submitted :
      (save_candidate jobs channel paused revision w).0.submitted ≡ w.submitted
  unfolding save_candidate
  save_candidate-submitted =
      let q = contents w.ctl jobs channel paused in
      interfere_held-submitted (save_contents q w).0 ∙ save_contents-submitted q w

  pub persist_candidate-submitted :
      (persist_candidate jobs channel paused revision w).0.submitted ≡ w.submitted
  unfolding persist_candidate
  persist_candidate-submitted = elim (Bool-cases w.ctl.has_store) [
    | inr s ↦ simp s refl
    | inl s ↦ elim (Bool-cases (w.ctl.queue_revision == revision)) [
      | inl r ↦ simp (s, r) save_candidate-submitted
      | inr r ↦ simp (s, r) refl
    ]
  ]

-- The rest of a round of persist.
abbrev continued : ℕ → World × Persisted → World × Persisted
continued n p = elim p.1 as (λ q. World × Persisted) [
  | saved ↦ (p.0, saved)
  | failed t ↦ (p.0, failed t)
  | changed ↦ persist_loop n (interfere p.0)
]

continued-submitted :
    (n : ℕ) (p : World × Persisted) (w : World)
    → ((v : World) → (persist_loop n v).0.submitted ≡ v.submitted)
    → p.0.submitted ≡ w.submitted
    → (continued n p).0.submitted ≡ w.submitted
continued-submitted n (u, saved) w h e = e
continued-submitted n (u, failed t) w h e = e
continued-submitted n (u, changed) w h e = h (interfere u) ∙ interfere-submitted u ∙ e

persist_loop-submitted : (n : ℕ) (w : World) → (persist_loop n w).0.submitted ≡ w.submitted
unfolding persist_loop
persist_loop-submitted zero w = refl
persist_loop-submitted (suc n) w =
    let c = w.ctl in
    let u = interfere w in
    continued-submitted n (persist_candidate c.jobs c.channel c.paused c.queue_revision u) w
      (persist_loop-submitted n)
      (persist_candidate-submitted c.jobs c.channel c.paused c.queue_revision u
        ∙ interfere-submitted w)

-- persist submits no message.
pub persist-submitted : (w : World) → (persist w).0.submitted ≡ w.submitted
unfolding persist
persist-submitted w = elim (Bool-cases w.ctl.has_store) [
  | inl s ↦ simp s (persist_loop-submitted (suc (length w.env)) w)
  | inr s ↦ simp s refl
]
