-- ===== src/Attempt/Boundary.antt =====
-- The durable boundary before a message is submitted (prepareSendForAttempt of
-- internal/app/runner.go) and the next start of the program (Load of internal/queue/store.go).
use telegram_uploader.Prelude.{
  ℕ, zero, suc, true, false, List, [], ◌∷◌, map, Option, none, some, String, ◌≡◌, refl, arith, ap,
  sym, ◌∙◌, get_elem?, Bool-cases, subst, All, eq_iff, ==_iff, ◌≢◌, inl, inr,
}
use telegram_uploader.Model.{Job, JobState, uploading, sending, confirming}
use telegram_uploader.Store.{Contents, recover}
use telegram_uploader.Store.Recovery.{recover-IsRecovered}
use telegram_uploader.Queue.{find_job_index, modify}
use telegram_uploader.Controller.{Controller}
use telegram_uploader.World.Honest.{settled, IsHonest}
use telegram_uploader.World.Persist.{save_contents-rest, interfere_quiet}
use telegram_uploader.World.Rounds.{IsOnDisk, persist-IsOnDisk, persist_quiet, persist-ne-changed}
use telegram_uploader.World.{World, Persisted, saved, changed, failed, interfere, persist}
use telegram_uploader.Attempt.{
  marked, sending_as, mark_state, mark_at, mark_found, mark_sending, settle_send, save_sending,
  is_other_attempt, prepare_send_for_attempt,
}

-- The job at `i` is in the queue file, and the next start of the program takes it up as confirming,
-- with the same id and random id.
pub record RestartsConfirming (u : World) (i : ℕ) (j : Job) : Type 0 where
  pub q : Contents
  pub k : Job
  pub file : u.disk ≡ some q
  pub taken_up : get_elem? (map recover q.jobs) i ≡ some k
  pub state : k.state ≡ confirming
  pub id : k.id ≡ j.id
  pub random_id : k.random_id ≡ j.random_id

pub data Prepared (id : String) (attempt : ℕ) (w u : World) : Type 0 where
  repeated :
      (i : ℕ) (j : Job)
      → find_job_index w.ctl.jobs id ≡ some i
      → get_elem? w.ctl.jobs i ≡ some j
      → j.state ≡ sending
      → u ≡ w
      → Prepared id attempt w u
  crossed :
      (i : ℕ) (j : Job)
      → find_job_index w.ctl.jobs id ≡ some i
      → get_elem? w.ctl.jobs i ≡ some j
      → j.state ≡ uploading
      → w.ctl.active_id ≡ id
      → w.ctl.active_attempt ≡ attempt
      → u.ctl.jobs ≡ modify i sending_as w.ctl.jobs
      → RestartsConfirming u i j
      → Prepared id attempt w u

settled-at :
    (js ks : List Job) (i : ℕ) {k : Job}
    → map settled js ≡ map settled ks
    → get_elem? ks i ≡ some k
    → (j : Job) × (get_elem? js i ≡ some j) × (settled j ≡ settled k)
settled-at [] [] i e h = cc
settled-at [] (k ∷ ks) i e h = cc
settled-at (j ∷ js) [] i e h = cc
settled-at (j ∷ js) (x ∷ ks) zero e h = (j, refl, cc)
settled-at (j ∷ js) (x ∷ ks) (suc i) e h = settled-at js ks i (ground arith) h

recovered-at :
    (js : List Job) (i : ℕ) {j : Job}
    → get_elem? js i ≡ some j
    → get_elem? (map recover js) i ≡ some (recover j)
recovered-at [] i e = cc
recovered-at (j ∷ js) zero e = cc
recovered-at (j ∷ js) (suc i) e = recovered-at js i e

modified-at :
    (f : Job → Job) (js : List Job) (i : ℕ) {j : Job}
    → get_elem? js i ≡ some j
    → get_elem? (modify i f js) i ≡ some (f j)
unfolding modify
modified-at f [] i e = cc
modified-at f (j ∷ js) zero e = cc
modified-at f (j ∷ js) (suc i) e = modified-at f js i e

-- A job that memory has in the state sending, where memory is on disk.
restarts :
    (u : World) (d : IsOnDisk u) (i : ℕ) (k : Job)
    → get_elem? u.ctl.jobs i ≡ some k
    → k.state ≡ sending
    → RestartsConfirming u i k
restarts u d i k there s =
    let (j, at, same) = settled-at d.q.jobs u.ctl.jobs i d.jobs there in
    let back = recover-IsRecovered j in
    let sends : j.state ≡ sending = ap (λ (x : Job). x.state) same ∙ s in
    record {
      q = d.q;
      k = recover j;
      file = d.file;
      taken_up = recovered-at d.q.jobs i at;
      state = (back.held_back (inl sends)).0;
      id = back.same_id ∙ ap (λ (x : Job). x.id) same;
      random_id = back.same_random_id ∙ ap (λ (x : Job). x.random_id) same;
    }

persist_quiet-ctl : (w : World) → w.env ≡ [] → w.ctl.has_store ≡ true → (persist w).0.ctl ≡ w.ctl
persist_quiet-ctl w e s =
    ap (λ (p : World × Persisted). p.0.ctl) (persist_quiet w e s) ∙ (save_contents-rest _ w).0

current-attempt :
    (id : String) (attempt : ℕ) (c : Controller)
    → is_other_attempt id attempt c ≡ false
    → (c.active_id ≡ id) × (c.active_attempt ≡ attempt)
current-attempt id attempt c o =
    ((eq_iff c.active_id id).0 (ground arith), (==_iff c.active_attempt attempt).0 (ground arith))

module _ (id : String) (attempt : ℕ) (w : World) (quiet : w.env ≡ [])
    (s : w.ctl.has_store ≡ true) where
  -- The job is marked, and saved.
  saved-Prepared :
      (i : ℕ) (j : Job)
      → find_job_index w.ctl.jobs id ≡ some i
      → get_elem? w.ctl.jobs i ≡ some j
      → j.state ≡ uploading
      → is_other_attempt id attempt w.ctl ≡ false
      → (c : Controller) → c.jobs ≡ modify i sending_as w.ctl.jobs
      → c.has_store ≡ true
      → (p : World × Persisted) → p ≡ persist (record w { ctl = c })
      → (settle_send p).1 ≡ none
      → p.1 ≢ changed
      → Prepared id attempt w (settle_send p).0
  saved-Prepared i j f there up other c e t (u, saved) q n ne =
      let now = current-attempt id attempt w.ctl other in
      let v = record w { ctl = c } in
      let same = ap (λ (p : World × Persisted). p.0.ctl) q ∙ persist_quiet-ctl v quiet t in
      let jobs : u.ctl.jobs ≡ modify i sending_as w.ctl.jobs =
        ap (λ (d : Controller). d.jobs) same ∙ e in
      let d : IsOnDisk u =
        subst (λ (p : World × Persisted). IsOnDisk p.0) (sym q)
          (persist-IsOnDisk v (subst (λ is. All IsHonest is) (sym quiet) tt) t
            (sym (ap (λ (p : World × Persisted). p.1) q))) in
      let r =
        restarts u d i (sending_as j)
          (ap (λ js. get_elem? js i) jobs ∙ modified-at sending_as w.ctl.jobs i there) refl in
      crossed i j f there up now.0 now.1 jobs (record {
        q = r.q;
        k = r.k;
        file = r.file;
        taken_up = r.taken_up;
        state = r.state;
        id = r.id;
        random_id = r.random_id;
      })
  saved-Prepared i j f there up other c e t (u, changed) q n ne = absurd (ne refl)
  saved-Prepared i j f there up other c e t (u, failed m) q n ne = absurd (cc)

  -- What the saving of a marked controller yields.
  marked-Prepared :
      (i : ℕ) (j : Job) (c : Controller)
      → find_job_index w.ctl.jobs id ≡ some i
      → get_elem? w.ctl.jobs i ≡ some j
      → j.state ≡ uploading
      → is_other_attempt id attempt w.ctl ≡ false
      → c.jobs ≡ modify i sending_as w.ctl.jobs
      → c.has_store ≡ true
      → (save_sending (marked c) w).1 ≡ none
      → Prepared id attempt w (save_sending (marked c) w).0
  marked-Prepared i j c f there up other e t n =
      let v = record w { ctl = c } in
      let same = interfere_quiet v quiet in
      saved-Prepared i j f there up other c e t (persist (interfere v)) (ap persist same) n
        (persist-ne-changed (interfere v))

  state-Prepared :
      (i : ℕ) (j : Job) (x : JobState)
      → x ≡ j.state
      → find_job_index w.ctl.jobs id ≡ some i
      → get_elem? w.ctl.jobs i ≡ some j
      → is_other_attempt id attempt w.ctl ≡ false
      → (save_sending (mark_state i x w.ctl) w).1 ≡ none
      → Prepared id attempt w (save_sending (mark_state i x w.ctl) w).0
  state-Prepared i j uploading e f there other n =
      marked-Prepared i j _ f there (sym e) other refl s n
  state-Prepared i j sending e f there other n = repeated i j f there (sym e) refl
  state-Prepared i j _ e f there other n = absurd (cc)

  at-Prepared :
      (i : ℕ) (o : Option Job)
      → get_elem? w.ctl.jobs i ≡ o
      → find_job_index w.ctl.jobs id ≡ some i
      → is_other_attempt id attempt w.ctl ≡ false
      → (save_sending (mark_at i o w.ctl) w).1 ≡ none
      → Prepared id attempt w (save_sending (mark_at i o w.ctl) w).0
  at-Prepared i none there f other n = absurd (cc)
  at-Prepared i (some j) there f other n = state-Prepared i j j.state refl f there other n

  found-Prepared :
      (r : Option ℕ)
      → find_job_index w.ctl.jobs id ≡ r
      → (save_sending (mark_found id attempt r w.ctl) w).1 ≡ none
      → Prepared id attempt w (save_sending (mark_found id attempt r w.ctl) w).0
  found-Prepared none f = λ n. absurd (cc)
  found-Prepared (some i) f = elim (Bool-cases (is_other_attempt id attempt w.ctl)) [
    | inl o ↦ simp o (λ n. absurd (cc))
    | inr o ↦ simp o (at-Prepared i (get_elem? w.ctl.jobs i) refl f o)
  ]

-- What an allowed submission has done.
prepare_send-Prepared :
    (id : String) (attempt : ℕ) (w : World)
    → w.env ≡ []
    → w.ctl.has_store ≡ true
    → (prepare_send_for_attempt id attempt w).1 ≡ none
    → Prepared id attempt w (prepare_send_for_attempt id attempt w).0
unfolding prepare_send_for_attempt mark_sending
prepare_send-Prepared id attempt w quiet s =
    found-Prepared id attempt w quiet s (find_job_index w.ctl.jobs id) refl

-- The job of this id restarts as confirming.
abbrev pub Restarts : String → World → World → Type 0
Restarts id w u =
    (i : ℕ) × (j : Job) × (find_job_index w.ctl.jobs id ≡ some i)
    × (get_elem? w.ctl.jobs i ≡ some j)
    × RestartsConfirming u i j

Prepared-Restarts :
    (id : String) (attempt : ℕ) (w u : World)
    → ((i : ℕ) (j : Job)
        → find_job_index w.ctl.jobs id ≡ some i
        → get_elem? w.ctl.jobs i ≡ some j
        → j.state ≡ sending
        → IsOnDisk w)
    → Prepared id attempt w u
    → Restarts id w u
Prepared-Restarts id attempt w u h (repeated i j f there s same) = (
  i,
  j,
  f,
  there,
  subst (λ v. RestartsConfirming v i j) (sym same) (restarts w (h i j f there s) i j there s),
)
Prepared-Restarts id attempt w u h (crossed i j f there s active current jobs r) =
    (i, j, f, there, r)

-- When prepareSendForAttempt allows the message to be submitted, nobody else acting and a store
-- present, the queue file holds a queue from which a start of the program takes the job up as
-- confirming, with its id and random id. Either the attempt was current and its job was uploading
-- and is now sending, or the job was in the state sending already and nothing was done; for the
-- latter case the file is supposed to hold the memory from before.
pub prepare_send-Restarts :
    (id : String) (attempt : ℕ) (w : World)
    → w.env ≡ []
    → w.ctl.has_store ≡ true
    → ((i : ℕ) (j : Job)
        → find_job_index w.ctl.jobs id ≡ some i
        → get_elem? w.ctl.jobs i ≡ some j
        → j.state ≡ sending
        → IsOnDisk w)
    → (prepare_send_for_attempt id attempt w).1 ≡ none
    → Prepared id attempt w (prepare_send_for_attempt id attempt w).0
      × Restarts id w (prepare_send_for_attempt id attempt w).0
prepare_send-Restarts id attempt w quiet s h n =
    let p = prepare_send-Prepared id attempt w quiet s n in
    (p, Prepared-Restarts id attempt w (prepare_send_for_attempt id attempt w).0 h p)
