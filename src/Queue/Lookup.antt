-- ===== src/Queue/Lookup.antt =====
-- findJobIndexLocked of internal/app/queue_edit.go, and edits of the job that it finds.
use telegram_uploader.Prelude.{
  ℕ, zero, suc, List, [], ◌∷◌, none, some, String, ◌≡◌, refl, arith, ap, str_eq, eq_iff, get_elem?,
  if◌then◌else◌,
}
use telegram_uploader.Model.{Job}
use telegram_uploader.Queue.{index_of, find_job_index, modify}

pub index_of-modify :
    (id : String) (f : Job → Job) (same : (j : Job) → (f j).id ≡ j.id) (i : ℕ) (js : List Job)
    → index_of id (modify i f js) ≡ index_of id js
unfolding index_of modify
index_of-modify id f same i [] = refl
index_of-modify id f same zero (j ∷ js) = ground (arith, same j)
index_of-modify id f same (suc i) (j ∷ js) = ground (arith, index_of-modify id f same i js)

-- An edit that keeps ids does not change where a job is found.
pub find_job_index-modify :
    (id : String) (f : Job → Job) (same : (j : Job) → (f j).id ≡ j.id) (i : ℕ) (js : List Job)
    → find_job_index (modify i f js) id ≡ find_job_index js id
unfolding find_job_index
find_job_index-modify id f same i js =
    ap (λ r. if str_eq id "" then none else r) (index_of-modify id f same i js)

-- Writing the old job back undoes an edit.
pub modify_undo :
    (f : Job → Job) (i : ℕ) (js : List Job) (j : Job)
    → get_elem? js i ≡ some j
    → modify i (λ k. j) (modify i f js) ≡ js
unfolding modify
modify_undo f i [] j e = refl
modify_undo f zero (x ∷ js) j e = ground arith
modify_undo f (suc i) (x ∷ js) j e = ap (◌∷◌ x) (modify_undo f i js j e)

-- The job found has the id, and stands at the index.
pub index_of-found :
    (id : String) (js : List Job) {i : ℕ}
    → index_of id js ≡ some i
    → (j : Job) × (get_elem? js i ≡ some j) × (j.id ≡ id)
unfolding index_of
index_of-found id [] e = cc
index_of-found id (j ∷ js) {i = zero} e = (j, refl, ground (arith, eq_iff j.id id))
index_of-found id (j ∷ js) {i = suc i} e = index_of-found id js (ground arith)

-- findJobIndexLocked finds a job with the id.
pub find_job_index-found :
    (id : String) (js : List Job) {i : ℕ}
    → find_job_index js id ≡ some i
    → (j : Job) × (get_elem? js i ≡ some j) × (j.id ≡ id)
unfolding find_job_index
find_job_index-found id js e = index_of-found id js (ground arith)

-- Only the job at the index matters.
pub modify_at :
    (f : Job → Job) (i : ℕ) (js : List Job) (j : Job)
    → get_elem? js i ≡ some j
    → modify i f js ≡ modify i (λ k. f j) js
unfolding modify
modify_at f i [] j e = refl
modify_at f zero (x ∷ js) j e = ground arith
modify_at f (suc i) (x ∷ js) j e = ap (◌∷◌ x) (modify_at f i js j e)
