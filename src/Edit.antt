-- ===== src/Edit.antt =====
-- The structural edits of internal/app/queue_edit.go. Each of them is a loop: take a snapshot under
-- the mutex, work out a candidate, save it, and publish it if the revision is still the same, else
-- start again. `edit_loop` is that loop; an operation is a `Decision` for the snapshot.
pub mod Protocol
pub mod Plain
pub mod Remove
pub mod Reset
pub mod InFlight
use telegram_uploader.Prelude.{
  ℕ, zero, suc, ◌+◌, ◌==◌, Bool, true, false, not, ◌&&◌, ◌||◌, List, [], ◌∷◌, Option, none, some,
  String, str_eq, if◌then◌else◌, length, contains, Result, ok, err,
}
use telegram_uploader.Prelude.Int.{ℤ, pos, ltb_ℤ}
use telegram_uploader.Model.{Job, Channel}
use telegram_uploader.Queue.{
  filtered_jobs, find_job_index, job_at, is_removable, pending_removal_eligible, is_completed,
}
use telegram_uploader.Queue.Select.{
  ResetMode, reset_selected, valid_reset_mode, is_reset, reset_jobs, limit_jobs,
}
use telegram_uploader.Controller.{
  Controller, Err, queue_running, queue_changed, unknown_reset_mode, bad_limit, storage,
  scan_failed, next, notify, insert_key,
}
use telegram_uploader.World.{
  World, Persisted, saved, changed, failed, interfere, persist_candidate, set_persistence_error,
  cancel, publish, commit_candidate, with_op,
}

-- A candidate: what is saved, and what is done to the controller when the revision still holds.
-- Publishing yields the context to cancel and the operation's result.
pub record Candidate (A : Type 0) : Type 0 where
  pub jobs : List Job
  pub channel : Channel
  pub paused : Bool
  pub publish : Controller → Controller × Option ℕ × A

-- What an operation does with its snapshot: return at once, or propose a candidate.
pub data Decision (A : Type 0) : Type 0 where
  stop : Controller → Option ℕ → Result Err A → Decision A
  propose : Candidate A → Decision A

module _ {A : Type 0} where
  -- The end of an operation under c.mu: the cancel function is called after Unlock.
  abbrev pub finish : World → Controller × Option ℕ × A → World × Result Err A
  finish w (c, k, a) = (cancel k (record w { ctl = c }), ok a)

  -- Publish if the revision is still the same, else start again.
  abbrev pub publish_if :
      Bool → Candidate A → World → (World → World × Result Err A) → World × Result Err A
  publish_if true p w again = finish w (p.publish w.ctl)
  publish_if false p w again = again w

  -- From the result of persistCandidate on; `again` is the next round.
  abbrev pub settle :
      Candidate A → ℕ → Persisted → World → (World → World × Result Err A) → World × Result Err A
  settle p revision saved w again =
      publish_if ((interfere w).ctl.queue_revision == revision) p (interfere w) again
  settle p revision changed w again = again (interfere w)
  settle p revision (failed t) w again = (set_persistence_error t (interfere w), err (storage t))

  -- One round, for a decision on the snapshot `w.ctl`.
  abbrev pub edit_round : Decision A → World → (World → World × Result Err A) → World × Result Err A
  edit_round (stop c k r) w again = (cancel k (record w { ctl = c }), r)
  edit_round (propose p) w again =
      let (u, r) = persist_candidate p.jobs p.channel p.paused w.ctl.queue_revision (interfere w) in
      settle p w.ctl.queue_revision r u again

  -- errQueueChanged is returned only where the rounds run out.
  unfoldable pub edit_loop : (Controller → Decision A) → ℕ → World → World × Result Err A
  edit_loop decide zero w = (w, err queue_changed)
  edit_loop decide (suc n) w = edit_round (decide w.ctl) w (edit_loop decide n)

  -- A round is repeated only after an interference, so there are at most as many rounds as those.
  unfoldable pub edit : (Controller → Decision A) → World → World × Result Err A
  edit decide w = edit_loop decide (suc (length w.env)) w

-- RemovalResult
pub record Removal : Type 0 where
  pub removed : ℕ
  pub pending_removal_ids : List String

-- requestPendingRemovalLocked: the context to cancel, if the job is the active one.
abbrev pub request_pending_removal : String → Controller → Controller × Option ℕ
request_pending_removal id c =
    let d = record c { pending_removal = insert_key id c.pending_removal } in
    if str_eq c.active_id id then (record d { cancel_job_id = id }, c.active_cancel) else (d, none)

abbrev is_selected : Option (List String) → String → Bool
is_selected none id = true
is_selected (some ids) id = contains ids id

abbrev is_eligible : Option Job → Bool
is_eligible none = false
is_eligible (some j) = pending_removal_eligible j.state

-- requestActiveRemovalLocked. No set of selected ids means that every active job is selected.
unfoldable pub request_active_removal :
    Option (List String) → Controller → Controller × List String × Option ℕ
request_active_removal selected c =
    let id = c.active_id in
    if str_eq id ""
      || not (is_selected selected id)
      || not (is_eligible (job_at c.jobs (find_job_index c.jobs id)))
    then (c, [], none)
    else let (d, k) = request_pending_removal id c in (notify d, id ∷ [], k)

-- folderIfJobs
abbrev pub folder_if_jobs : List Job → String → String
folder_if_jobs [] current = ""
folder_if_jobs (j ∷ js) current = current

-- commitRemovalCandidate after its revision check, and the caller's result.
abbrev notify_unless : List String → Controller → Controller
notify_unless [] c = notify c
notify_unless (i ∷ is) c = c

unfoldable pub commit_removal_candidate :
    List Job → String → Option (List String) → ℕ → Controller → Controller × Option ℕ × Removal
unfolding request_active_removal
commit_removal_candidate jobs folder selected removed c =
    let (d, pending, k) = request_active_removal selected (publish jobs folder c) in
    (notify_unless pending d, k, record { removed = removed; pending_removal_ids = pending })

-- The removal test of RemoveJobs and ClearQueue.
abbrev pub removes : Option (List String) → String → Job → Bool
removes selected active j =
    is_selected selected j.id && is_removable j.state && not (str_eq j.id active)

-- Nothing can be removed at once: only the active job may be marked.
abbrev request_only : Controller × List String × Option ℕ → Decision Removal
request_only (d, pending, k) = stop d k (ok (record { removed = 0; pending_removal_ids = pending }))

-- The body of the loops of RemoveJobs and ClearQueue.
unfoldable pub remove_decision : Option (List String) → Controller → Decision Removal
remove_decision selected c =
    let (next_jobs, removed) = filtered_jobs c.jobs (removes selected c.active_id) in
    if removed == 0
    then request_only (request_active_removal selected c)
    else propose (record {
      jobs = next_jobs;
      channel = c.channel;
      paused = c.paused;
      publish =
          commit_removal_candidate next_jobs (folder_if_jobs next_jobs c.folder) selected removed;
    })

-- The ids that are not empty.
abbrev pub nonempty_ids : List String → List String
nonempty_ids [] = []
nonempty_ids (i ∷ is) = let rest = nonempty_ids is in if str_eq i "" then rest else i ∷ rest

unfoldable pub remove_jobs : List String → World → World × Result Err Removal
remove_jobs ids w = elim (nonempty_ids ids) [
  | [] ↦ (w, ok (record { removed = 0; pending_removal_ids = [] }))
  | i ∷ is ↦ with_op (edit (remove_decision (some (i ∷ is)))) w
]

unfoldable pub clear_queue : World → World × Result Err Removal
clear_queue w = with_op (edit (remove_decision none)) w

-- A candidate that commitCandidate publishes, with the result of the operation.
abbrev pub plain_candidate : {A : Type 0} → Controller → List Job → String → A → Candidate A
plain_candidate c jobs folder a = record {
  jobs = jobs;
  channel = c.channel;
  paused = c.paused;
  publish = λ d. (commit_candidate jobs folder d, none, a);
}

-- The snapshot of an operation that only edits the job list: either there is nothing to do, or the
-- candidate's jobs and folder, in both cases with the result.
pub data Proposal (A : Type 0) : Type 0 where
  nothing : A → Proposal A
  edited : List Job → String → A → Proposal A

abbrev pub plain : {A : Type 0} → Controller → Proposal A → Decision A
plain c (nothing a) = stop c none (ok a)
plain c (edited jobs folder a) = propose (plain_candidate c jobs folder a)

unfoldable pub completed_proposal : Controller → Proposal Removal
completed_proposal c =
    let (next_jobs, removed) = filtered_jobs c.jobs (λ j. is_completed j.state) in
    if removed == 0
    then nothing (record { removed = removed; pending_removal_ids = [] })
    else edited next_jobs (folder_if_jobs next_jobs c.folder)
        (record { removed = removed; pending_removal_ids = [] })

unfoldable pub remove_completed : World → World × Result Err Removal
remove_completed w = with_op (edit (λ c. plain c (completed_proposal c))) w

unfoldable pub reset_proposal : ResetMode → List String → Controller → Proposal ℕ
reset_proposal mode selected c =
    let (next_jobs, count) =
      reset_jobs (is_reset c.active_id c.pending_removal mode selected) c.jobs in
    if count == 0 then nothing 0 else edited next_jobs c.folder count

-- With ResetSelected the ids are a set; without a selected id there is nothing to do.
abbrev reset_selection : ResetMode → List String → Option (List String)
reset_selection reset_selected ids = elim (nonempty_ids ids) [ [] ↦ none | i ∷ is ↦ some (i ∷ is) ]
reset_selection _ ids = some []

unfoldable pub reset_queue_jobs : ResetMode → List String → World → World × Result Err ℕ
reset_queue_jobs mode ids w =
    if valid_reset_mode mode
    then elim (reset_selection mode ids) [
      | none ↦ (w, ok 0)
      | some selected ↦ with_op (edit (λ c. plain c (reset_proposal mode selected c))) w
    ]
    else (w, err unknown_reset_mode)

unfoldable pub limit_proposal : ℤ → Controller → Proposal (Unit {0})
limit_proposal max c =
    let (jobs, changed') = limit_jobs max c.jobs in
    if changed' then edited jobs c.folder tt else nothing tt

unfoldable pub apply_upload_limit : ℤ → World → World × Result Err (Unit {0})
apply_upload_limit max w =
    if ltb_ℤ (pos 0) max
    then with_op (edit (λ c. plain c (limit_proposal max c))) w
    else (w, err bad_limit)

unfoldable pub channel_decision : Channel → Controller → Decision (Unit {0})
channel_decision channel c =
    if c.running
    then stop c none (err queue_running)
    else propose (record {
      jobs = c.jobs;
      channel = channel;
      paused = c.paused;
      publish = λ d. (
        notify (record d {
          channel = channel;
          queue_revision = next d.queue_revision;
          last_error = "";
        }),
        none,
        tt,
      );
    })

unfoldable pub set_channel : Channel → World → World × Result Err (Unit {0})
set_channel channel w = with_op (edit (channel_decision channel)) w

-- Scan: `found` is the result of scanner.Scan.
unfoldable pub scan_queue :
    Result String (List Job) → String → World → World × Result Err (Unit {0})
scan_queue found folder w =
    with_op
      (λ u. if u.ctl.running then (u, err queue_running) else elim found [
        | err t ↦ (u, err (scan_failed t))
        | ok jobs ↦ edit (λ c. plain c (edited jobs folder tt)) (interfere u)
      ])
      w
