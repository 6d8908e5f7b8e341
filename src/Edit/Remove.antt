-- ===== src/Edit/Remove.antt =====
-- RemoveJobs, ClearQueue and RemoveCompleted of internal/app/queue_edit.go: which jobs they remove.
use telegram_uploader.Prelude.{
  ℕ, ◌+◌, Bool, true, List, [], ◌∷◌, map, Option, String, ◌≡◌, refl, arith, length, inl, sym, ◌∙◌,
  ap, Result, ok, ok_inj, ◌⊎◌,
}
use telegram_uploader.Model.{Job}
use telegram_uploader.Queue.{filtered_jobs}
use telegram_uploader.Queue.Filter.{
  IsPlaced, length_of_map, unplaced, without, filtered_jobs-Filtered,
}
use telegram_uploader.Controller.{Controller, Err}
use telegram_uploader.World.Honest.{IsHonestWorld, SameDurable, settled, preserve-settled}
use telegram_uploader.World.Reached.{Reached}
use telegram_uploader.World.{World, publish, cancel}
use telegram_uploader.Edit.Protocol.{Ran, stopped, published, refused, cancel-ctl, edit-Ran}
use telegram_uploader.Edit.{
  stop, propose, Candidate, edit, Removal, removes, remove_decision, request_active_removal,
  commit_removal_candidate, folder_if_jobs,
}

-- Jobs without their positions and byte counters.
abbrev pub cores : List Job → List Job
cores js = map settled (map unplaced js)

settled-unplaced : (js : List Job) → cores js ≡ map unplaced (map settled js)
settled-unplaced [] = refl
settled-unplaced (j ∷ js) = ap (◌∷◌ (settled (unplaced j))) (settled-unplaced js)

pub cores_of_settled : (xs ys : List Job) → map settled xs ≡ map settled ys → cores xs ≡ cores ys
cores_of_settled xs ys e = settled-unplaced xs ∙ ap (map unplaced) e ∙ sym (settled-unplaced ys)

-- A removal test that looks at neither positions nor byte counters.
without-cores :
    (remove : Job → Bool) (same : (j : Job) → remove (settled (unplaced j)) ≡ remove j)
    (js : List Job)
    → cores (without remove js) ≡ without remove (cores js)
without-cores remove same [] = refl
without-cores remove same (j ∷ js) = ground (arith, same j, without-cores remove same js)

-- The controller `e` after a removal from `d` of the jobs that pass `removes selected active`.
pub record RemovedFrom (selected : Option (List String)) (d e : Controller) (r : Removal)
    : Type 0 where
  pub active : String
  pub spared : (d.active_id ≡ active) ⊎ (d.active_id ≡ "")
  pub jobs : cores e.jobs ≡ cores (without (removes selected active) d.jobs)
  pub count : r.removed + length e.jobs ≡ length d.jobs
  pub placed : IsPlaced 0 d.jobs → IsPlaced 0 e.jobs

request_active_removal-jobs :
    (selected : Option (List String)) (c : Controller)
    → (request_active_removal selected c).0.jobs ≡ c.jobs
unfolding request_active_removal
request_active_removal-jobs selected c = ground arith

commit_removal_candidate-jobs :
    (jobs : List Job) (folder : String) (selected : Option (List String)) (n : ℕ) (c : Controller)
    → ((commit_removal_candidate jobs folder selected n c).0.jobs ≡ (publish jobs folder c).jobs)
      × ((commit_removal_candidate jobs folder selected n c).2.removed ≡ n)
unfolding commit_removal_candidate request_active_removal
commit_removal_candidate-jobs jobs folder selected n c = ground arith

remove_stop :
    (selected : Option (List String)) (c : Controller) {d : Controller} {k : Option ℕ}
    {r : Result Err Removal}
    → remove_decision selected c ≡ stop d k r
    → let q = request_active_removal selected c in
      ((filtered_jobs c.jobs (removes selected c.active_id)).1 ≡ 0)
      × (d ≡ q.0)
      × (r ≡ ok (record { removed = 0; pending_removal_ids = q.1 }))
unfolding remove_decision
remove_stop selected c e = ground arith

remove_propose :
    (selected : Option (List String)) (c : Controller) {p : Candidate Removal}
    → remove_decision selected c ≡ propose p
    → let (next_jobs, removed) = filtered_jobs c.jobs (removes selected c.active_id) in
      p.publish
      ≡ commit_removal_candidate next_jobs (folder_if_jobs next_jobs c.folder) selected removed
unfolding remove_decision
remove_propose selected c e = ground arith

IsPlaced-settled :
    (i : ℕ) (xs ys : List Job) → map settled xs ≡ map settled ys → IsPlaced i ys → IsPlaced i xs
IsPlaced-settled i [] ys e p = tt
IsPlaced-settled i (x ∷ xs) [] e p = cc
IsPlaced-settled i (x ∷ xs) (y ∷ ys) e p =
    (ground arith, IsPlaced-settled (i + 1) xs ys (ground arith) p.1)

publish-settled :
    (jobs : List Job) (folder : String) (c : Controller)
    → map settled (publish jobs folder c).jobs ≡ map settled jobs
unfolding publish
publish-settled jobs folder c = preserve-settled c.active_id c.jobs jobs

module _ (selected : Option (List String)) where
  -- Nothing was removable: the jobs stay.
  stopped-RemovedFrom :
      (d e : Controller) (r : Removal)
      → (filtered_jobs d.jobs (removes selected d.active_id)).1 ≡ 0
      → e.jobs ≡ d.jobs
      → r.removed ≡ 0
      → RemovedFrom selected d e r
  stopped-RemovedFrom d e r z j n =
      let test = removes selected d.active_id in
      let f = filtered_jobs-Filtered test d.jobs in
      record {
        active = d.active_id;
        spared = inl refl;
        jobs = ap cores (j ∙ sym (f.unchanged z)) ∙ ap (map settled) f.kept;
        count = omega (arith, ap length j);
        placed = λ p. rw j p;
      }

  -- A candidate from the snapshot `c` was published into `d`.
  published-RemovedFrom :
      (c d e : Controller) (folder : String) (r : Removal)
      → SameDurable c d
      → let (next_jobs, removed) = filtered_jobs c.jobs (removes selected c.active_id) in
        e.jobs ≡ (publish next_jobs folder d).jobs
        → r.removed ≡ (filtered_jobs c.jobs (removes selected c.active_id)).1
        → RemovedFrom selected d e r
  published-RemovedFrom c d e folder r same j n =
      let test = removes selected c.active_id in
      let next_jobs = (filtered_jobs c.jobs test).0 in
      let f = filtered_jobs-Filtered test c.jobs in
      let out : map settled e.jobs ≡ map settled next_jobs =
        ap (map settled) j ∙ publish-settled next_jobs folder d in
      let kept : cores (without test c.jobs) ≡ cores (without test d.jobs) =
        without-cores test (λ x. refl) c.jobs
        ∙ ap (without test) (cores_of_settled c.jobs d.jobs same.jobs)
        ∙ sym (without-cores test (λ x. refl) d.jobs) in
      record {
        active = c.active_id;
        spared = same.active;
        jobs = cores_of_settled e.jobs next_jobs out ∙ ap (map settled) f.kept ∙ kept;
        count = omega (
          arith,
          f.counted,
          length_of_map settled e.jobs next_jobs out,
          length_of_map settled c.jobs d.jobs same.jobs,
        );
        placed = λ p.
            IsPlaced-settled 0 e.jobs next_jobs out
              (f.placed (IsPlaced-settled 0 c.jobs d.jobs same.jobs p));
      }

  Ran-RemovedFrom :
      {w : World} {x : World × Result Err Removal} (r : Removal)
      → Ran (remove_decision selected) w x
      → x.1 ≡ ok r
      → (u : World) × Reached w u × RemovedFrom selected u.ctl x.0.ctl r
  Ran-RemovedFrom r (stopped {u = u} reached {c = d} {k = k} e) q =
      let s = remove_stop selected u.ctl e in
      let jobs_of = λ (c : Controller). c.jobs in
      (
        u,
        reached,
        stopped-RemovedFrom u.ctl (cancel k (record u { ctl = d })).ctl r s.0
            (ap jobs_of (cancel-ctl k (record u { ctl = d }) ∙ s.1)
              ∙ request_active_removal-jobs selected u.ctl)
            (ap (λ (x : Removal). x.removed) (sym (ok_inj (sym s.2 ∙ q)))),
      )
  Ran-RemovedFrom r (published c {u = u} {p = p} reached e same durable) q =
      let pe = remove_propose selected c e in
      let f = filtered_jobs c.jobs (removes selected c.active_id) in
      let folder = folder_if_jobs f.0 c.folder in
      let out = commit_removal_candidate-jobs f.0 folder selected f.1 u.ctl in
      let v = p.publish u.ctl in
      (
        u,
        reached,
        published-RemovedFrom c u.ctl (cancel v.1 (record u { ctl = v.0 })).ctl folder r durable
            (ap (λ (d : Controller). d.jobs) (cancel-ctl v.1 (record u { ctl = v.0 }))
              ∙ ap (λ (g : Controller → Controller × Option ℕ × Removal). (g u.ctl).0.jobs) pe
              ∙ out.0)
            (ap (λ (x : Removal). x.removed) (sym (ok_inj q))
              ∙ ap (λ (g : Controller → Controller × Option ℕ × Removal). (g u.ctl).2.removed) pe
              ∙ out.1),
      )
  Ran-RemovedFrom r (refused c t reached e) q = cc

  pub remove-RemovedFrom :
      (w : World)
      → IsHonestWorld w
      → w.ctl.has_store ≡ true
      → (r : Removal) → (edit (remove_decision selected) w).1 ≡ ok r
      → (u : World) × Reached w u
        × RemovedFrom selected u.ctl (edit (remove_decision selected) w).0.ctl r
  remove-RemovedFrom w h s r q = Ran-RemovedFrom r (edit-Ran (remove_decision selected) w h s) q
