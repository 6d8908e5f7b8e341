-- ===== src/World/Rounds.antt =====
-- The loop of persist (internal/app/controller.go): it ends, and what it has saved when it does.
use telegram_uploader.Prelude.{
  Option, none, String, ℕ, zero, suc, ◌<◌, ◌≤◌, ◌-◌, true, [], map, some, ◌≡◌, refl, ◌≢◌, arith,
  length, nil-or-pos, Bool-cases, inl, inr, sym, ◌∙◌, ap,
}
use telegram_uploader.Store.{Contents}
use telegram_uploader.World.Honest.{
  IsHonestWorld, SameDurable-trans, settled, preserve-settled, interfere-SameDurable,
  interfere-keeps,
}
use telegram_uploader.World.Persist.{
  plain_save, persist_candidate-env, persist_candidate-IsSaved, persist_candidate-Keeps, Keeps,
  persist_candidate_quiet, interfere_quiet, interfere-env, quiet-ne-changed,
}
use telegram_uploader.World.{
  verdict, World, Persisted, saved, changed, failed, persist_candidate, persist_loop, persist,
  interfere, contents,
}

-- One round of the loop.
abbrev round : World → World × Persisted
round w =
    let c = w.ctl in persist_candidate c.jobs c.channel c.paused c.queue_revision (interfere w)

persist_loop_step :
    (n : ℕ) (w u : World) (r : Persisted)
    → round w ≡ (u, r)
    → persist_loop (suc n) w ≡ elim r [
      | saved ↦ (u, saved)
      | failed t ↦ (u, failed t)
      | changed ↦ persist_loop n (interfere u)
    ]
unfolding persist_loop
persist_loop_step n w u r e =
    ap
      (λ (p : World × Persisted). elim p.1 as (λ q. World × Persisted) [
        | saved ↦ (p.0, saved)
        | failed t ↦ (p.0, failed t)
        | changed ↦ persist_loop n (interfere p.0)
      ])
      e

round-env : (w : World) → length (round w).0.env ≤ length w.env - 1
round-env w = omega (
  arith,
  interfere-env w,
  persist_candidate-env w.ctl.jobs w.ctl.channel w.ctl.paused w.ctl.queue_revision (interfere w),
)

round_quiet : (w : World) → w.env ≡ [] → (round w).1 ≢ changed
round_quiet w e q = quiet-ne-changed w.ctl.jobs w.ctl.channel w.ctl.paused w (
    ap (λ (p : World × Persisted). p.1)
      (sym (persist_candidate_quiet w.ctl.jobs w.ctl.channel w.ctl.paused w e))
    ∙ (rw (interfere_quiet w e) at q))

persist_loop_next :
    (n : ℕ) (w u : World) (r : Persisted)
    → length w.env < suc n
    → (length (interfere (round w).0).env < n
        → (persist_loop n (interfere (round w).0)).1 ≢ changed)
    → round w ≡ (u, r)
    → (persist_loop (suc n) w).1 ≢ changed
persist_loop_next n w u saved h ih e = rw (persist_loop_step n w u saved e) (λ q. cc)
persist_loop_next n w u (failed t) h ih e = rw (persist_loop_step n w u (failed t) e) (λ q. cc)
persist_loop_next n w u changed h ih e =
    rw (persist_loop_step n w u changed e) (elim (nil-or-pos w.env) [
      | inl quiet ↦ λ q. round_quiet w quiet (ap (λ (p : World × Persisted). p.1) e)
      | inr busy ↦
          rw (ap (λ (p : World × Persisted). p.0) e) at
            (ih (omega (arith, interfere-env (round w).0, round-env w)))
    ])

-- With more rounds than others can act, the loop does not end for want of rounds.
persist_loop_ends : (n : ℕ) (w : World) → length w.env < n → (persist_loop n w).1 ≢ changed
persist_loop_ends zero w h = absurd (omega arith)
persist_loop_ends (suc n) w h =
    persist_loop_next n w (round w).0 (round w).1 h (persist_loop_ends n (interfere (round w).0))
      refl

-- persist ends with success or an error of the store, whatever other goroutines do meanwhile.
pub persist-ne-changed : (w : World) → (persist w).1 ≢ changed
unfolding persist
persist-ne-changed w = elim (Bool-cases w.ctl.has_store) [
  | inl s ↦ simp s (persist_loop_ends _ w (omega arith))
  | inr s ↦ simp s (λ q. cc)
]

-- The file holds what is in memory: the same jobs up to byte counters, channel and paused flag.
pub record IsOnDisk (w : World) : Type 0 where
  pub q : Contents
  pub file : w.disk ≡ some q
  pub jobs : map settled q.jobs ≡ map settled w.ctl.jobs
  pub channel : q.channel ≡ w.ctl.channel
  pub paused : q.paused ≡ w.ctl.paused

-- A round that saves has its snapshot on disk, and memory has not moved on.
round-IsOnDisk :
    (w : World)
    → IsHonestWorld w
    → w.ctl.has_store ≡ true
    → (round w).1 ≡ saved
    → IsOnDisk (round w).0
round-IsOnDisk w h s q =
    let c = w.ctl in
    let u = interfere w in
    let keeps = interfere-keeps w h in
    let done =
      persist_candidate-IsSaved c.jobs c.channel c.paused c.queue_revision u keeps.0 (keeps.1 ∙ s)
        q in
    let same = SameDurable-trans (interfere-SameDurable w h done.before) done.same in
    record {
      q = contents u.ctl c.jobs c.channel c.paused;
      file = done.on_disk;
      jobs = preserve-settled u.ctl.active_id u.ctl.jobs c.jobs ∙ same.jobs;
      channel = same.channel;
      paused = same.paused;
    }

round-Keeps : (w : World) → IsHonestWorld w → Keeps w (round w).0
round-Keeps w h =
    let c = w.ctl in
    let keeps = interfere-keeps w h in
    let kept =
      persist_candidate-Keeps c.jobs c.channel c.paused c.queue_revision (interfere w) keeps.0 in
    (kept.0, kept.1 ∙ keeps.1)

persist_loop_saved_next :
    (n : ℕ) (w u : World) (r : Persisted)
    → (r ≡ saved → IsOnDisk u)
    → ((persist_loop n (interfere u)).1 ≡ saved → IsOnDisk (persist_loop n (interfere u)).0)
    → round w ≡ (u, r)
    → (persist_loop (suc n) w).1 ≡ saved
    → IsOnDisk (persist_loop (suc n) w).0
persist_loop_saved_next n w u saved d ih e = rw (persist_loop_step n w u saved e) (λ q. d refl)
persist_loop_saved_next n w u (failed t) d ih e =
    rw (persist_loop_step n w u (failed t) e) (λ q. cc)
persist_loop_saved_next n w u changed d ih e = rw (persist_loop_step n w u changed e) ih

persist_loop-IsOnDisk :
    (n : ℕ) (w : World)
    → IsHonestWorld w
    → w.ctl.has_store ≡ true
    → (persist_loop n w).1 ≡ saved
    → IsOnDisk (persist_loop n w).0
unfolding persist_loop
persist_loop-IsOnDisk zero w h s q = cc
persist_loop-IsOnDisk (suc n) w h s q =
    let u = (round w).0 in
    let kept = round-Keeps w h in
    let later = interfere-keeps u kept.0 in
    persist_loop_saved_next n w u (round w).1 (round-IsOnDisk w h s)
      (persist_loop-IsOnDisk n (interfere u) later.0 (later.1 ∙ kept.1 ∙ s)) refl q

-- When persist reports success, the queue file holds the jobs (up to byte counters), the channel and
-- the paused flag that are in memory at that moment, although others may have changed them
-- meanwhile. They change durable state only with the revision, and the store is not nil.
pub persist-IsOnDisk :
    (w : World)
    → IsHonestWorld w
    → w.ctl.has_store ≡ true
    → (persist w).1 ≡ saved
    → IsOnDisk (persist w).0
unfolding persist
persist-IsOnDisk w h s = simp s (persist_loop-IsOnDisk _ w h s)

persist_loop_once :
    (n : ℕ) (w u : World) (f : Option String)
    → round w ≡ (u, verdict f true)
    → persist_loop (suc n) w ≡ (u, verdict f true)
persist_loop_once n w u none e = persist_loop_step n w u saved e
persist_loop_once n w u (some t) e = persist_loop_step n w u (failed t) e

-- With nobody else there and a store, persist is one save of the controller's queue.
pub persist_quiet :
    (w : World)
    → w.env ≡ []
    → w.ctl.has_store ≡ true
    → persist w ≡ plain_save w.ctl.jobs w.ctl.channel w.ctl.paused w
unfolding persist
persist_quiet w e s =
    let c = w.ctl in
    simp s (
      persist_loop_once (length w.env) w _ _ (
        ap (λ (u : World). persist_candidate c.jobs c.channel c.paused c.queue_revision u)
          (interfere_quiet w e)
        ∙ persist_candidate_quiet c.jobs c.channel c.paused w e
        ∙ simp s))
