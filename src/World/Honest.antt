-- ===== src/World/Honest.antt =====
-- What the controller relies on: other goroutines change durable queue state only together with
-- queueRevision ("queueRevision changes whenever a durable queue or channel/pause value is
-- changed", internal/app/controller.go). Byte counters are not durable in this sense.
use telegram_uploader.Prelude.{
  List, [], ◌∷◌, map, Option, none, some, String, ◌≡◌, refl, ◌⊎◌, inl, inr, arith, All, str_eq,
  Bool-cases,
}
use telegram_uploader.Prelude.Int.{pos}
use telegram_uploader.Model.{Job}
use telegram_uploader.Queue.{
  preserve_active_progress, progress_from, job_at, replace_progress, find_job_index,
}
use telegram_uploader.Controller.{Controller}
use telegram_uploader.World.{
  World, Interference, interfere, interfere_held, interfere_with, interfere_held_with,
}

-- A job without its byte counters, which progress callbacks change at any time.
abbrev pub settled : Job → Job
settled j = record j { uploaded = pos 0; bytes_per_second = 0 }

pub replace_progress-settled :
    (id : String) (from : Job) (js : List Job)
    → map settled (replace_progress id from js) ≡ map settled js
unfolding replace_progress
replace_progress-settled id from [] = refl
replace_progress-settled id from (j ∷ js) = ground (arith, replace_progress-settled id from js)

progress_from-settled :
    (from : Option Job) (active : String) (jobs : List Job)
    → map settled (progress_from from active jobs) ≡ map settled jobs
progress_from-settled none active jobs = refl
progress_from-settled (some j) active jobs = replace_progress-settled active j jobs

-- Copying the active job's counters into a candidate changes nothing durable.
pub preserve-settled :
    (active : String) (current jobs : List Job)
    → map settled (preserve_active_progress active current jobs) ≡ map settled jobs
unfolding preserve_active_progress
preserve-settled active current jobs = elim (Bool-cases (str_eq active "")) [
  | inl idle ↦ rw idle
  | inr busy ↦
      rw busy (progress_from-settled (job_at current (find_job_index current active)) active jobs)
]

-- The same durable state; a finished upload may have cleared the active id.
pub record SameDurable (c d : Controller) : Type 0 where
  pub jobs : map settled c.jobs ≡ map settled d.jobs
  pub channel : c.channel ≡ d.channel
  pub folder : c.folder ≡ d.folder
  pub paused : c.paused ≡ d.paused
  pub active : (d.active_id ≡ c.active_id) ⊎ (d.active_id ≡ "")

pub SameDurable-refl : (c : Controller) → SameDurable c c
SameDurable-refl c = record {
  jobs = refl;
  channel = refl;
  folder = refl;
  paused = refl;
  active = inl refl;
}

pub SameDurable-trans : {c d e : Controller} → SameDurable c d → SameDurable d e → SameDurable c e
SameDurable-trans h k = ground arith

pub record IsHonest (i : Interference) : Type 0 where
  pub revised :
      (c : Controller) → (i.act c).queue_revision ≡ c.queue_revision → SameDurable c (i.act c)
  pub keeps_store : (c : Controller) → (i.act c).has_store ≡ c.has_store

abbrev pub IsHonestWorld : World → Type 0
IsHonestWorld w = All IsHonest w.env

interfere_with-SameDurable :
    (is : List Interference) (w : World)
    → All IsHonest is
    → (interfere_with is w).ctl.queue_revision ≡ w.ctl.queue_revision
    → SameDurable w.ctl (interfere_with is w).ctl
unfolding interfere_with
interfere_with-SameDurable [] w h e = SameDurable-refl w.ctl
interfere_with-SameDurable (i ∷ is) w h e = h.0.revised w.ctl e

interfere_held_with-SameDurable :
    (is : List Interference) (w : World)
    → All IsHonest is
    → (interfere_held_with is w).ctl.queue_revision ≡ w.ctl.queue_revision
    → SameDurable w.ctl (interfere_held_with is w).ctl
unfolding interfere_held_with
interfere_held_with-SameDurable [] w h e = SameDurable-refl w.ctl
interfere_held_with-SameDurable (i ∷ is) w h e = h.0.revised w.ctl e

interfere_with-keeps :
    (is : List Interference) (w : World)
    → w.env ≡ is
    → All IsHonest is
    → IsHonestWorld (interfere_with is w) × ((interfere_with is w).ctl.has_store ≡ w.ctl.has_store)
unfolding interfere_with
interfere_with-keeps [] w q h = (rw q tt, refl)
interfere_with-keeps (i ∷ is) w q h = (h.1, h.0.keeps_store w.ctl)

interfere_held_with-keeps :
    (is : List Interference) (w : World)
    → w.env ≡ is
    → All IsHonest is
    → IsHonestWorld (interfere_held_with is w)
      × ((interfere_held_with is w).ctl.has_store ≡ w.ctl.has_store)
      × ((interfere_held_with is w).disk ≡ w.disk)
unfolding interfere_held_with
interfere_held_with-keeps [] w q h = (rw q tt, refl, refl)
interfere_held_with-keeps (i ∷ is) w q h = (h.1, h.0.keeps_store w.ctl, refl)

module _ (w : World) (h : IsHonestWorld w) where
  -- After an interference that left the revision alone the durable state is the same.
  pub interfere-SameDurable :
      (interfere w).ctl.queue_revision ≡ w.ctl.queue_revision → SameDurable w.ctl (interfere w).ctl
  unfolding interfere
  interfere-SameDurable e = interfere_with-SameDurable w.env w h e

  pub interfere_held-SameDurable :
      (interfere_held w).ctl.queue_revision ≡ w.ctl.queue_revision
      → SameDurable w.ctl (interfere_held w).ctl
  unfolding interfere_held
  interfere_held-SameDurable e = interfere_held_with-SameDurable w.env w h e

  -- The rest of the environment is honest still, and the store is there or not as before.
  pub interfere-keeps :
      IsHonestWorld (interfere w) × ((interfere w).ctl.has_store ≡ w.ctl.has_store)
  unfolding interfere
  interfere-keeps = interfere_with-keeps w.env w refl h

  -- Under persistMu the file is left alone too.
  pub interfere_held-keeps :
      IsHonestWorld (interfere_held w)
      × ((interfere_held w).ctl.has_store ≡ w.ctl.has_store)
      × ((interfere_held w).disk ≡ w.disk)
  unfolding interfere_held
  interfere_held-keeps = interfere_held_with-keeps w.env w refl h
