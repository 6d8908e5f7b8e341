-- ===== src/Append.antt =====
-- AddJobs (internal/app/queue_edit.go). strings.TrimSpace and the functions of path/filepath that
-- jobPathKey calls are the `Paths`.
pub mod Fresh
use telegram_uploader.Prelude.{
  ℕ, zero, suc, Bool, true, false, not, ◌&&◌, ◌||◌, List, [], ◌∷◌, ◌++◌, Option, none, some, String,
  str_eq, if◌then◌else◌, length, Result, ok, err,
}
use telegram_uploader.Prelude.Int.{ℤ, pos, ltb_ℤ, ne_ℤ, is_zero}
use telegram_uploader.Model.{Job, JobState, queued, oversize, unknown}
use telegram_uploader.Queue.{reindex_jobs}
use telegram_uploader.Controller.{
  Controller, Err, blank_path, blank_id, duplicate_id, zero_random_id, duplicate_random_id,
  bad_name_or_size, bad_initial_state,
}
use telegram_uploader.World.{World, with_op}
use telegram_uploader.Edit.{Decision, stop, propose, edit, plain_candidate}

pub record Paths : Type 0 where
  pub is_blank : String → Bool  -- strings.TrimSpace(s) == ""
  pub resolve : String → String  -- Abs, EvalSymlinks, Clean and, on Windows, ToLower

abbrev pub job_path_key : Paths → String → String
job_path_key paths p = if paths.is_blank p then "" else paths.resolve p

-- Membership in a Go map, given as the list of its keys.
unfoldable pub has : {K : Type 0} → (K → K → Bool) → List K → K → Bool
has eq [] k = false
has eq (i ∷ is) k = let rest = has eq is k in eq i k || rest

abbrev pub same_int : ℤ → ℤ → Bool
same_int a b = not (ne_ℤ a b)

-- The sets paths, ids and randomIDs.
pub record Known : Type 0 where
  pub paths : List String
  pub ids : List String
  pub random_ids : List ℤ

abbrev pub note_path : String → List String → List String
note_path key ks = if str_eq key "" then ks else key ∷ ks

abbrev pub note_id : String → List String → List String
note_id id ids = if str_eq id "" then ids else id ∷ ids

abbrev pub note_random_id : ℤ → List ℤ → List ℤ
note_random_id r rs = if is_zero r then rs else r ∷ rs

-- What becomes of one candidate.
pub data Judged : Type 0 where
  repeated : Judged
  rejected : Err → Judged
  accepted : Job → Judged

abbrev pub accept_as : JobState → Job → Judged
accept_as queued j = accepted j
accept_as oversize j = accepted j
accept_as (unknown t) j =
    if str_eq t "" then accepted (record j { state = queued }) else rejected bad_initial_state
accept_as _ j = rejected bad_initial_state

abbrev pub prepend : Job → Result Err (List Job) → Result Err (List Job)
prepend j (ok js) = ok (j ∷ js)
prepend j (err e) = err e

abbrev pub joined : Judged → Result Err (List Job) → Result Err (List Job)
joined repeated rest = rest
joined (rejected e) rest = err e
joined (accepted j) rest = prepend j rest

module _ (paths : Paths) where
  -- The loop over the current jobs.
  unfoldable pub known_of : List Job → Known
  known_of [] = record { paths = []; ids = []; random_ids = [] }
  known_of (j ∷ js) =
      let k = known_of js in
      record {
        paths = note_path (job_path_key paths j.path) k.paths;
        ids = note_id j.id k.ids;
        random_ids = note_random_id j.random_id k.random_ids;
      }

  abbrev pub add_known : Job → Known → Known
  add_known j k = record {
    paths = job_path_key paths j.path ∷ k.paths;
    ids = j.id ∷ k.ids;
    random_ids = j.random_id ∷ k.random_ids;
  }

  unfoldable pub judge : Known → Job → Judged
  judge k j =
      if paths.is_blank j.path
      then rejected blank_path
      else if has str_eq k.paths (job_path_key paths j.path)
      then repeated
      else if paths.is_blank j.id
      then rejected blank_id
      else if has str_eq k.ids j.id
      then rejected duplicate_id
      else if is_zero j.random_id
      then rejected zero_random_id
      else if has same_int k.random_ids j.random_id
      then rejected duplicate_random_id
      else if paths.is_blank j.name || ltb_ℤ j.size (pos 0)
      then rejected bad_name_or_size
      else accept_as j.state j

  abbrev pub next_known : Judged → Known → Known
  next_known (accepted j) k = add_known j k
  next_known _ k = k

  -- The loop over the candidates: the jobs to append.
  unfoldable pub append_from : Known → List Job → Result Err (List Job)
  append_from k [] = ok []
  append_from k (j ∷ js) = joined (judge k j) (append_from (next_known (judge k j) k) js)

  unfoldable pub append_decision : List Job → Controller → Decision ℕ
  append_decision candidates c = elim (append_from (known_of c.jobs) candidates) [
    | err e ↦ stop c none (err e)
    | ok [] ↦ stop c none (ok 0)
    | ok (j ∷ js) ↦
        propose (plain_candidate c (reindex_jobs (c.jobs ++ j ∷ js)).0 c.folder (length (j ∷ js)))
  ]

  unfoldable pub add_jobs : List Job → World → World × Result Err ℕ
  add_jobs [] w = (w, ok 0)
  add_jobs (j ∷ js) w = with_op (edit (append_decision (j ∷ js))) w
