-- ===== src/Queue/Filter.antt =====
-- What filteredJobs and reindexJobs of internal/app/queue_edit.go return.
use telegram_uploader.Prelude.{
  ℕ, zero, suc, ◌+◌, ◌≤◌, Bool, false, List, [], ◌∷◌, map, String, ◌≡◌, refl, ◌≢◌, ap,
  if◌then◌else◌, arith, length, ltb, lt→ltb, ◌∙◌,
}
use telegram_uploader.Prelude.Int.{pos, ne_ℤ_iff}
use telegram_uploader.Model.{Job}
use telegram_uploader.Queue.{partition_jobs, filtered_jobs, reindex_from}

-- Positions count up from `i`.
abbrev pub IsPlaced : ℕ → List Job → Type 0
IsPlaced i [] = Unit {0}
IsPlaced i (j ∷ js) = (j.position ≡ pos i) × IsPlaced (i + 1) js

-- No job of the list has the id.
abbrev pub IsFresh : String → List Job → Type 0
IsFresh id [] = Unit {0}
IsFresh id (j ∷ js) = (j.id ≢ id) × IsFresh id js

-- No two jobs share an id.
abbrev pub IsDistinct : List Job → Type 0
IsDistinct [] = Unit {0}
IsDistinct (j ∷ js) = IsFresh j.id js × IsDistinct js

-- A job without its position.
abbrev pub unplaced : Job → Job
unplaced j = record j { position = pos 0 }

-- The specification of a removal: the jobs that fail the test, in order.
abbrev pub without : (Job → Bool) → List Job → List Job
without remove [] = []
without remove (j ∷ js) = let rest = without remove js in if remove j then rest else j ∷ rest

pub reindex_from-IsPlaced : (i : ℕ) (js : List Job) → IsPlaced i (reindex_from i js).0
unfolding reindex_from
reindex_from-IsPlaced i [] = tt
reindex_from-IsPlaced i (j ∷ js) = (refl, reindex_from-IsPlaced (i + 1) js)

pub reindex_from-unplaced :
    (i : ℕ) (js : List Job) → map unplaced (reindex_from i js).0 ≡ map unplaced js
unfolding reindex_from
reindex_from-unplaced i [] = refl
reindex_from-unplaced i (j ∷ js) = ap (◌∷◌ (unplaced j)) (reindex_from-unplaced (i + 1) js)

pub reindex_from-length : (i : ℕ) (js : List Job) → length (reindex_from i js).0 ≡ length js
unfolding reindex_from
reindex_from-length i [] = refl
reindex_from-length i (j ∷ js) = ap suc (reindex_from-length (i + 1) js)

-- Whether a position changed is told exactly.
pub reindex_from-changed :
    (i : ℕ) (js : List Job) → (reindex_from i js).1 ≡ false → (reindex_from i js).0 ≡ js
unfolding reindex_from
reindex_from-changed i [] h = refl
reindex_from-changed i (j ∷ js) h =
    ground (arith, reindex_from-changed (i + 1) js, ne_ℤ_iff j.position (pos i))

pub partition_jobs-kept :
    (remove : Job → Bool) (js : List Job) → (partition_jobs remove js).0 ≡ without remove js
unfolding partition_jobs
partition_jobs-kept remove [] = refl
partition_jobs-kept remove (j ∷ js) = ground (arith, partition_jobs-kept remove js)

pub partition_jobs-count :
    (remove : Job → Bool) (js : List Job)
    → (partition_jobs remove js).1 + length (without remove js) ≡ length js
unfolding partition_jobs
partition_jobs-count remove [] = omega arith
partition_jobs-count remove (j ∷ js) = ground (arith, partition_jobs-count remove js)

without-le : (remove : Job → Bool) (js : List Job) → length (without remove js) ≤ length js
without-le remove [] = omega arith
without-le remove (j ∷ js) = ground (arith, without-le remove js)

without-all :
    (remove : Job → Bool) (js : List Job)
    → length js ≤ length (without remove js)
    → without remove js ≡ js
without-all remove [] h = refl
without-all remove (j ∷ js) h = ground (arith, without-le remove js, without-all remove js)

-- The result of filteredJobs for a given removal test.
pub record Filtered (remove : Job → Bool) (before : List Job) (after : List Job × ℕ) : Type 0 where
  pub kept : map unplaced after.0 ≡ map unplaced (without remove before)
  pub counted : after.1 + length after.0 ≡ length before
  pub placed : IsPlaced 0 before → IsPlaced 0 after.0
  pub unchanged : after.1 ≡ 0 → after.0 ≡ before

-- Lists with the same image have the same length.
pub length_of_map : (f : Job → Job) (xs ys : List Job) → map f xs ≡ map f ys → length xs ≡ length ys
length_of_map f [] [] e = refl
length_of_map f [] (y ∷ ys) e = cc
length_of_map f (x ∷ xs) [] e = cc
length_of_map f (x ∷ xs) (y ∷ ys) e = ap suc (length_of_map f xs ys (ground arith))

count-Filtered :
    (remove : Job → Bool) (js kept : List Job) (n : ℕ)
    → kept ≡ without remove js
    → n + length (without remove js) ≡ length js
    → Filtered remove js (if ltb 0 n then ((reindex_from 0 kept).0, n) else (kept, n))
count-Filtered remove js kept zero e c = record {
  kept = rw e;
  counted = rw e c;
  placed = λ p. rw (e, without-all remove js (omega arith)) p;
  unchanged = λ _. e ∙ without-all remove js (omega arith);
}
count-Filtered remove js kept (suc n) e c = rw (lt→ltb 0 (suc n) (omega arith)) (record {
  kept = reindex_from-unplaced 0 kept ∙ ap (map unplaced) e;
  counted = omega (arith, reindex_from-length 0 kept, ap length e);
  placed = λ p. reindex_from-IsPlaced 0 kept;
  unchanged = λ z. absurd (omega arith);
})

-- The jobs that fail the test stay, in order and with nothing but their position changed; the count
-- is the number of jobs removed; positions stay consecutive; nothing is removed only if nothing
-- changes.
pub filtered_jobs-Filtered :
    (remove : Job → Bool) (js : List Job) → Filtered remove js (filtered_jobs js remove)
unfolding filtered_jobs
filtered_jobs-Filtered remove js =
    count-Filtered remove js (partition_jobs remove js).0 (partition_jobs remove js).1
      (partition_jobs-kept remove js) (partition_jobs-count remove js)

IsFresh-unplaced :
    (id : String) (xs ys : List Job)
    → map unplaced xs ≡ map unplaced ys
    → IsFresh id ys
    → IsFresh id xs
IsFresh-unplaced id [] ys e f = tt
IsFresh-unplaced id (x ∷ xs) [] e f = cc
IsFresh-unplaced id (x ∷ xs) (y ∷ ys) e f =
    (ground arith, IsFresh-unplaced id xs ys (ground arith) f.1)

-- Distinctness of ids does not depend on positions.
pub IsDistinct-unplaced :
    (xs ys : List Job) → map unplaced xs ≡ map unplaced ys → IsDistinct ys → IsDistinct xs
IsDistinct-unplaced [] ys e f = tt
IsDistinct-unplaced (x ∷ xs) [] e f = cc
IsDistinct-unplaced (x ∷ xs) (y ∷ ys) e f = (
  IsFresh-unplaced x.id xs ys (ground arith) (ground arith),
  IsDistinct-unplaced xs ys (ground arith) f.1,
)

pub IsFresh-without :
    (id : String) (remove : Job → Bool) (js : List Job)
    → IsFresh id js
    → IsFresh id (without remove js)
IsFresh-without id remove [] f = tt
IsFresh-without id remove (j ∷ js) f = ground (arith, IsFresh-without id remove js f.1)

IsDistinct-without :
    (remove : Job → Bool) (js : List Job) → IsDistinct js → IsDistinct (without remove js)
IsDistinct-without remove [] d = tt
IsDistinct-without remove (j ∷ js) d =
    ground (arith, IsDistinct-without remove js d.1, IsFresh-without j.id remove js d.0)

pub filtered_jobs-IsDistinct :
    (remove : Job → Bool) (js : List Job) → IsDistinct js → IsDistinct (filtered_jobs js remove).0
filtered_jobs-IsDistinct remove js d =
    IsDistinct-unplaced (filtered_jobs js remove).0 (without remove js)
      (filtered_jobs-Filtered remove js).kept (IsDistinct-without remove js d)
