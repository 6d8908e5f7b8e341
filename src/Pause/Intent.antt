-- ===== src/Pause/Intent.antt =====
-- What Pause and Resume (internal/app/pause.go) leave in memory and on disk, when no other goroutine
-- acts.
use telegram_uploader.Prelude.{
  ℕ, ==_iff, Bool, true, false, [], Option, none, some, ◌≡◌, ◌≢◌, ◌⊎◌, refl, arith, ap, map, sym,
  ◌∙◌, subst, All, List, ◌∷◌, Result, ok, err, Bool-cases, inl, inr,
}
use telegram_uploader.Controller.{Controller, Err}
use telegram_uploader.Store.{Contents}
use telegram_uploader.World.Honest.{IsHonest, settled, preserve-settled}
use telegram_uploader.World.Persist.{interfere_quiet, save_contents-rest}
use telegram_uploader.World.Rounds.{IsOnDisk, persist-IsOnDisk, persist_quiet, persist-ne-changed}
use telegram_uploader.World.{
  World, SaveOutcome, written, unwritten, unsynced, save_as, save_contents, contents, Persisted,
  saved, changed, failed, interfere, persist, cancel, with_op, release_op,
}
use telegram_uploader.Pause.{
  unless_running, request_pause, waiting_context, request_resume, roll_back_pause, settle_pause,
  save_pause, pause, resume,
}

-- The queue file is as it was, or it holds the jobs with the flag `goal`.
abbrev pub FileLeft : Bool → World → Option Contents → Type 0
FileLeft goal w disk =
    (disk ≡ w.disk)
    ⊎ ((q : Contents) × (disk ≡ some q)
        × (q.paused ≡ goal)
        × (map settled q.jobs ≡ map settled w.ctl.jobs))

-- The intent was `goal`: it holds, the jobs are the same, and it is on disk unless it was the intent
-- before; or the operation failed, and intent and jobs are as they were, if not in the file.
abbrev pub IntentEnded : Bool → World → World × Result Err (Unit {0}) → Type 0
IntentEnded goal w (u, ok x) =
    (u.ctl.paused ≡ goal) × (u.ctl.jobs ≡ w.ctl.jobs) × ((w.ctl.paused ≡ goal) ⊎ IsOnDisk u)
IntentEnded goal w (u, err e) =
    (u.ctl.paused ≡ w.ctl.paused) × (u.ctl.jobs ≡ w.ctl.jobs) × FileLeft goal w u.disk

IsOnDisk-elsewhere : (u v : World) → u.disk ≡ v.disk → u.ctl ≡ v.ctl → IsOnDisk u → IsOnDisk v
IsOnDisk-elsewhere u v d c o = record {
  q = o.q;
  file = sym d ∙ o.file;
  jobs = o.jobs ∙ ap (λ (x : Controller). map settled x.jobs) c;
  channel = o.channel ∙ ap (λ (x : Controller). x.channel) c;
  paused = o.paused ∙ ap (λ (x : Controller). x.paused) c;
}

cancelled-IsOnDisk : (k : Option ℕ) (u : World) → IsOnDisk u → IsOnDisk (cancel k u)
cancelled-IsOnDisk none u o = o
cancelled-IsOnDisk (some k) u o = IsOnDisk-elsewhere u (cancel (some k) u) refl refl o

cancelled-ctl : (k : Option ℕ) (u : World) → (cancel k u).ctl ≡ u.ctl
cancelled-ctl none u = refl
cancelled-ctl (some k) u = refl

persisted-rest :
    (w : World)
    → w.env ≡ []
    → w.ctl.has_store ≡ true
    → ((persist w).0.ctl ≡ w.ctl) × ((persist w).0.env ≡ [])
persisted-rest w e s =
    let rest = save_contents-rest _ w in
    (
      ap (λ (p : World × Persisted). p.0.ctl) (persist_quiet w e s) ∙ rest.0,
      ap (λ (p : World × Persisted). p.0.env) (persist_quiet w e s) ∙ rest.1 ∙ e,
    )

save_contents-disk :
    (q : Contents) (w : World)
    → ((save_contents q w).0.disk ≡ w.disk) ⊎ ((save_contents q w).0.disk ≡ some q)
unfolding save_contents
save_contents-disk q w = saved_as w.saves
  where
    saved_as :
        (os : List SaveOutcome)
        → ((save_as os q w).0.disk ≡ w.disk) ⊎ ((save_as os q w).0.disk ≡ some q)
    saved_as [] = inr refl
    saved_as (written ∷ os) = inr refl
    saved_as (unwritten t ∷ os) = inl refl
    saved_as (unsynced t ∷ os) = inr refl

-- The file after a save with the new flag, whether it fails or not.
persist-FileLeft :
    (goal : Bool) (w v : World)
    → v.env ≡ []
    → v.ctl.has_store ≡ true
    → v.disk ≡ w.disk
    → v.ctl.paused ≡ goal
    → v.ctl.jobs ≡ w.ctl.jobs
    → FileLeft goal w (persist v).0.disk
persist-FileLeft goal w v e s d g js =
    let q = contents v.ctl v.ctl.jobs v.ctl.channel v.ctl.paused in
    let same = ap (λ (p : World × Persisted). p.0.disk) (persist_quiet v e s) in
    elim (save_contents-disk q v) [
      | inl k ↦ inl (same ∙ k ∙ d)
      | inr k ↦ inr (
        q,
        same ∙ k,
        g,
        preserve-settled v.ctl.active_id v.ctl.jobs v.ctl.jobs ∙ ap (map settled) js,
      )
    ]

rolled_back :
    (a b : Bool) (c : Controller)
    → ((roll_back_pause a b c.pause_revision c).paused ≡ a)
      × ((roll_back_pause a b c.pause_revision c).jobs ≡ c.jobs)
unfolding roll_back_pause
rolled_back a b c = simp ((==_iff c.pause_revision c.pause_revision).1 refl) (refl, refl)

module _ (w : World) (quiet : w.env ≡ []) (s : w.ctl.has_store ≡ true) (goal : Bool)
    (k : Option ℕ) where
  settle-IntentEnded :
      (c : Controller)
      → c.paused ≡ goal
      → c.jobs ≡ w.ctl.jobs
      → (p : World × Persisted) → p.0.ctl ≡ c
      → p.0.env ≡ []
      → (p.1 ≡ saved → IsOnDisk p.0)
      → p.1 ≢ changed
      → FileLeft goal w p.0.disk
      → IntentEnded goal w (settle_pause w.ctl c.pause_revision k p)
  settle-IntentEnded c g js (u, saved) e q d n l = (
    ap (λ (x : Controller). x.paused) (cancelled-ctl k u ∙ e) ∙ g,
    ap (λ (x : Controller). x.jobs) (cancelled-ctl k u ∙ e) ∙ js,
    inr (cancelled-IsOnDisk k u (d refl)),
  )
  settle-IntentEnded c g js (u, changed) e q d n l = absurd (n refl)
  settle-IntentEnded c g js (u, failed t) e q d n l =
      let alone = interfere_quiet u q in
      let back = roll_back_pause w.ctl.paused w.ctl.pause_requested c.pause_revision in
      let v = record (interfere u) { ctl = back (interfere u).ctl } in
      let still = interfere_quiet v (ap (λ (x : World). x.env) alone ∙ q) in
      let same : (interfere v).ctl ≡ back c =
        ap (λ (x : World). x.ctl) still ∙ ap (λ (x : World). back x.ctl) alone ∙ ap back e in
      let done = rolled_back w.ctl.paused w.ctl.pause_requested c in
      (
        ap (λ (x : Controller). x.paused) same ∙ done.0,
        ap (λ (x : Controller). x.jobs) same ∙ done.1 ∙ js,
        subst (FileLeft goal w)
            (sym (ap (λ (x : World). x.disk) still ∙ ap (λ (x : World). x.disk) alone)) l,
      )

  save-IntentEnded :
      (x : Controller × Bool)
      → x.0.paused ≡ goal
      → x.0.jobs ≡ w.ctl.jobs
      → x.0.has_store ≡ true
      → (x.1 ≡ false → w.ctl.paused ≡ goal)
      → IntentEnded goal w (save_pause w.ctl k x w)
  save-IntentEnded (c, false) g js t same = (g, js, inl (same refl))
  save-IntentEnded (c, true) g js t same =
      let v = record w { ctl = c } in
      let alone = interfere_quiet v quiet in
      let rest = persisted-rest v quiet t in
      subst (λ (x : World). IntentEnded goal w (settle_pause w.ctl c.pause_revision k (persist x)))
        (sym alone)
        (settle-IntentEnded c g js (persist v) rest.0 rest.1
          (persist-IsOnDisk v (subst (All IsHonest) (sym quiet) tt) t) (persist-ne-changed v)
          (persist-FileLeft goal w v quiet t refl g js))

released :
    (goal : Bool) (w : World) (x : World × Result Err (Unit {0}))
    → IntentEnded goal w x
    → IntentEnded goal w (release_op x)
released goal w (u, ok y) (a, b, inl c) = (a, b, inl c)
released goal w (u, ok y) (a, b, inr o) =
    (a, b, inr (IsOnDisk-elsewhere u (record u { op_held = false }) refl refl o))
released goal w (u, err y) d = d

unless_running-IntentEnded :
    (goal : Bool) (body : World → World × Result Err (Unit {0})) (w : World)
    → w.env ≡ []
    → w.ctl.has_store ≡ true
    → ((v : World) → v.env ≡ [] → v.ctl ≡ w.ctl → v.disk ≡ w.disk → IntentEnded goal w (body v))
    → IntentEnded goal w (unless_running body w)
unless_running-IntentEnded goal body w quiet s h = elim (Bool-cases w.ctl.running) [
  | inl r ↦ simp r (h w quiet refl refl)
  | inr r ↦
      let alone = interfere_quiet w quiet in
      let held = record w { op_held = true } in
      simp r (
        subst (λ (x : World). IntentEnded goal w (with_op (λ u. body (interfere u)) x)) (sym alone)
          (elim (Bool-cases w.op_held) [
            | inl o ↦ simp o (refl, refl, inl refl)
            | inr o ↦ simp o (
                released goal w (body (interfere held)) (
                  subst (λ (x : World). IntentEnded goal w (body x))
                    (sym (interfere_quiet held quiet)) (h held quiet refl refl)))
          ]))
]

seen-from :
    (goal : Bool) (v w : World) (x : World × Result Err (Unit {0}))
    → v.ctl ≡ w.ctl
    → v.disk ≡ w.disk
    → IntentEnded goal v x
    → IntentEnded goal w x
seen-from goal v w (u, ok y) e f (a, b, c) = (
  a,
  b ∙ ap (λ (d : Controller). d.jobs) e,
  subst (λ (d : Controller). (d.paused ≡ goal) ⊎ IsOnDisk u) e c,
)
seen-from goal v w (u, err y) e f (a, b, l) =
    (a ∙ ap (λ (d : Controller). d.paused) e, b ∙ ap (λ (d : Controller). d.jobs) e, file l)
  where
    file : FileLeft goal v u.disk → FileLeft goal w u.disk
    file (inl k) = inl (k ∙ f)
    file (inr (q, k, g, j)) = inr (q, k, g, j ∙ ap (λ (d : Controller). map settled d.jobs) e)

-- What a request does to the controller, for `goal`.
record Requests (goal : Bool) (c : Controller) (x : Controller × Bool) : Type 0 where
  pub paused : x.0.paused ≡ goal
  pub jobs : x.0.jobs ≡ c.jobs
  pub store : x.0.has_store ≡ c.has_store
  pub same : x.1 ≡ false → c.paused ≡ goal

request_pause-Requests : (c : Controller) → Requests true c (request_pause c)
unfolding request_pause
request_pause-Requests c = ground arith

request_resume-Requests : (c : Controller) → Requests false c (request_resume c)
unfolding request_resume
request_resume-Requests c = ground arith

requested :
    (goal : Bool) (k : Controller → Option ℕ) (f : Controller → Controller × Bool)
    → ((c : Controller) → Requests goal c (f c))
    → (w : World) → w.env ≡ []
    → w.ctl.has_store ≡ true
    → IntentEnded goal w (unless_running (λ u. save_pause u.ctl (k u.ctl) (f u.ctl) u) w)
requested goal k f h w quiet s =
    unless_running-IntentEnded goal (λ u. save_pause u.ctl (k u.ctl) (f u.ctl) u) w quiet s
      (λ v q e d.
        let r = h v.ctl in
        let t = ap (λ (c : Controller). c.has_store) e ∙ s in
        seen-from goal v w (save_pause v.ctl (k v.ctl) (f v.ctl) v) e d
          (save-IntentEnded v q t goal (k v.ctl) (f v.ctl) r.paused r.jobs (r.store ∙ t) r.same))

-- Pause for true, Resume for false.
abbrev pub set_intent : Bool → World → World × Result Err (Unit {0})
set_intent true w = pause w
set_intent false w = resume w

-- With nobody else acting and a store present, Pause and Resume either report success, then the
-- paused flag is as asked for and the queue file holds memory unless the flag was so before; or
-- they report an error, a failed save or a busy queue, and the flag is as it was, while the queue file
-- is as it was or holds the jobs with the flag as asked for. The jobs are the same in both cases.
pub set_intent-IntentEnded :
    (goal : Bool) (w : World)
    → w.env ≡ []
    → w.ctl.has_store ≡ true
    → IntentEnded goal w (set_intent goal w)
unfolding pause resume
set_intent-IntentEnded true w quiet s =
    requested true waiting_context request_pause request_pause-Requests w quiet s
set_intent-IntentEnded false w quiet s =
    requested false (λ c. none) request_resume request_resume-Requests w quiet s
