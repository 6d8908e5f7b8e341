-- ===== src/World.antt =====
-- The controller among the other goroutines: persistCandidate, persist, setPersistenceError and
-- commitCandidate of internal/app. Whenever c.mu is released, the next entry of `env` acts: what the
-- other goroutines do to the controller and the queue file, and which contexts they cancel, until the
-- mutex is taken again. While
-- persistMu is held they cannot write the queue file (`interfere_held`). Each call of QueueStore.Save
-- takes the next outcome of `saves`; when none is left the save succeeds.
pub mod Honest
pub mod Persist
pub mod Rounds
pub mod Reached
pub mod Submitted
use telegram_uploader.Prelude.{
  ℕ, zero, suc, ◌+◌, ◌==◌, Bool, true, false, not, ◌&&◌, ◌||◌, List, [], ◌∷◌, ◌++◌, Option, none,
  some, String, str_eq, str_append, if◌then◌else◌, length, Result, ok, err,
}
use telegram_uploader.Prelude.Int.{ℤ}
use telegram_uploader.Model.{Job, Channel}
use telegram_uploader.Store.{Contents}
use telegram_uploader.Queue.{preserve_active_progress}
use telegram_uploader.Controller.{Controller, Err, op_busy, next, notify}

-- `unwritten` leaves the queue file as it was; `unsynced` is the error of the directory sync, after
-- the new file was put in place (internal/fsutil).
pub data SaveOutcome : Type 0 where
  written : SaveOutcome
  unwritten unsynced : String → SaveOutcome

pub record Interference : Type 0 where
  pub act : Controller → Controller
  pub store : Option Contents → Option Contents
  pub cancels : List ℕ

pub record World : Type 0 where
  pub ctl : Controller
  pub disk : Option Contents
  pub saves : List SaveOutcome
  pub env : List Interference
  pub op_held : Bool  -- opMu
  pub cancelled : List ℕ  -- the contexts whose cancel function was called
  pub submitted : List ℤ  -- the random ids that Telegram was asked to send, the last one first

-- c.mu is free for others.
pub interfere_with : List Interference → World → World
interfere_with [] w = w
interfere_with (i ∷ is) w = record w {
  ctl = i.act w.ctl;
  disk = i.store w.disk;
  env = is;
  cancelled = i.cancels ++ w.cancelled;
}

unfoldable pub interfere : World → World
unfolding interfere_with
interfere w = interfere_with w.env w

-- The same while persistMu is held here.
pub interfere_held_with : List Interference → World → World
interfere_held_with [] w = w
interfere_held_with (i ∷ is) w = record w {
  ctl = i.act w.ctl;
  env = is;
  cancelled = i.cancels ++ w.cancelled;
}

unfoldable pub interfere_held : World → World
unfolding interfere_held_with
interfere_held w = interfere_held_with w.env w

-- c.store.Save
abbrev pub save_as : List SaveOutcome → Contents → World → World × Option String
save_as [] q w = (record w { disk = some q }, none)
save_as (written ∷ os) q w = (record w { disk = some q; saves = os }, none)
save_as (unwritten t ∷ os) q w = (record w { saves = os }, some t)
save_as (unsynced t ∷ os) q w = (record w { disk = some q; saves = os }, some t)

unfoldable pub save_contents : Contents → World → World × Option String
save_contents q w = save_as w.saves q w

-- The results nil, errQueueChanged and an error of the store.
pub data Persisted : Type 0 where
  saved changed : Persisted
  failed : String → Persisted

-- What is written for a candidate.
abbrev pub contents : Controller → List Job → Channel → Bool → Contents
contents c jobs channel paused = record {
  jobs = preserve_active_progress c.active_id c.jobs jobs;
  channel = channel;
  paused = paused;
}

-- The error of Save, and whether the revision is the same after it.
abbrev pub verdict : Option String → Bool → Persisted
verdict (some t) same = failed t
verdict none true = saved
verdict none false = changed

-- From the check of the revision under persistMu on.
unfoldable pub save_candidate : List Job → Channel → Bool → ℕ → World → World × Persisted
unfolding save_contents interfere_held
save_candidate jobs channel paused revision w =
    let (w', failure) = save_contents (contents w.ctl jobs channel paused) w in
    let after = interfere_held w' in (after, verdict failure (after.ctl.queue_revision == revision))

unfoldable pub persist_candidate : List Job → Channel → Bool → ℕ → World → World × Persisted
persist_candidate jobs channel paused revision w =
    if w.ctl.has_store
    then if w.ctl.queue_revision == revision
      then save_candidate jobs channel paused revision w
      else (w, changed)
    else (w, saved)

-- The loop of persist; `changed` is returned only where the fuel runs out.
unfoldable pub persist_loop : ℕ → World → World × Persisted
persist_loop zero w = (w, changed)
persist_loop (suc n) w =
    let c = w.ctl in
    let (w', r) = persist_candidate c.jobs c.channel c.paused c.queue_revision (interfere w) in
    elim r [
      | saved ↦ (w', saved)
      | failed t ↦ (w', failed t)
      | changed ↦ persist_loop n (interfere w')
    ]

-- A round is repeated only after an interference, so there are at most as many rounds as those.
unfoldable pub persist : World → World × Persisted
persist w = if w.ctl.has_store then persist_loop (suc (length w.env)) w else (w, saved)

-- setPersistenceError, for a store error with this text.
abbrev pub set_persistence_error : String → World → World
set_persistence_error t w = record w {
  ctl = notify (record w.ctl { last_error = str_append "保存本地状态失败：" t });
}

-- `cancel()` where the cancel function is not nil.
abbrev pub cancel : Option ℕ → World → World
cancel none w = w
cancel (some k) w = record w { cancelled = k ∷ w.cancelled }

-- The assignments of commitCandidate, after its revision check and before notifyLocked.
unfoldable pub publish : List Job → String → Controller → Controller
publish jobs folder c = record c {
  jobs = preserve_active_progress c.active_id c.jobs jobs;
  folder = if not (str_eq folder "") || (length jobs == 0) then folder else c.folder;
  queue_revision = next c.queue_revision;
  last_error = "";
}

unfoldable pub commit_candidate : List Job → String → Controller → Controller
commit_candidate jobs folder c = notify (publish jobs folder c)

-- opMu.TryLock at the head of an operation, and the deferred Unlock.
abbrev pub release_op : {A : Type 0} → World × A → World × A
release_op (w, a) = (record w { op_held = false }, a)

abbrev pub with_op : {A : Type 0} → (World → World × Result Err A) → World → World × Result Err A
with_op body w =
    if w.op_held then (w, err op_busy) else release_op (body (record w { op_held = true }))
