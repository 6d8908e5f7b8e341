-- ===== src/Append/Fresh.antt =====
-- Which jobs AddJobs appends (internal/app/queue_edit.go).
use telegram_uploader.Prelude.{
  String, Bool, true, false, List, [], ◌∷◌, ◌++◌, map, str_eq, eq_iff, Result, ok, err, ok_inj,
  subst, All, ◌≡◌, refl, arith, Bool-cases, inl, inr, sym, if◌then◌else◌,
}
use telegram_uploader.Prelude.Int.{ℤ, ne_ℤ_iff, is_zero}
use telegram_uploader.Model.{Job, JobState, queued, oversize}
use telegram_uploader.Controller.{Err}
use telegram_uploader.Append.{
  Paths, job_path_key, has, same_int, Known, known_of, Judged, repeated, rejected, accepted,
  accept_as, judge, next_known, prepend, joined, append_from,
}

-- No key of the list occurs twice.
abbrev pub IsUnique : {K : Type 0} → (K → K → Bool) → List K → Type 0
IsUnique eq [] = Unit
IsUnique eq (k ∷ ks) = (has eq ks k ≡ false) × IsUnique eq ks

-- The keys are unique, and none of them is among those already known.
abbrev pub IsNew : {K : Type 0} → (K → K → Bool) → List K → List K → Type 0
IsNew eq known [] = Unit
IsNew eq known (k ∷ ks) = (has eq known k ≡ false) × IsNew eq (k ∷ known) ks

-- The ids and the random ids of the jobs of a queue, without the empty ones that a queue file may
-- hold.
abbrev pub ids_of : List Job → List String
ids_of [] = []
ids_of (j ∷ js) = if str_eq j.id "" then ids_of js else j.id ∷ ids_of js

abbrev pub random_ids_of : List Job → List ℤ
random_ids_of [] = []
random_ids_of (j ∷ js) =
    if is_zero j.random_id then random_ids_of js else j.random_id ∷ random_ids_of js

module _ {K : Type 0} (eq : K → K → Bool) (eq_self : (k : K) → eq k k ≡ true)
    (eq_sound : (a b : K) → eq a b ≡ true → a ≡ b) where
  -- A known key is none of the new ones.
  IsNew-has :
      (known ks : List K) (k : K) → has eq known k ≡ true → IsNew eq known ks → has eq ks k ≡ false
  unfolding has
  IsNew-has known [] k h n = refl
  IsNew-has known (x ∷ xs) k h n = elim (Bool-cases (eq x k)) [
    | inl e ↦ absurd (cc (rw (eq_sound x k e) at n.0, h))
    | inr e ↦ rw e (IsNew-has (x ∷ known) xs k (rw e h) n.1)
  ]

  IsNew-IsUnique : (known ks : List K) → IsNew eq known ks → IsUnique eq ks
  unfolding has
  IsNew-IsUnique known [] n = tt
  IsNew-IsUnique known (k ∷ ks) n =
      (IsNew-has (k ∷ known) ks k (rw (eq_self k) refl) n.1, IsNew-IsUnique (k ∷ known) ks n.1)

  has-append :
      (xs ys : List K) (k : K)
      → has eq xs k ≡ false
      → has eq ys k ≡ false
      → has eq (xs ++ ys) k ≡ false
  unfolding has
  has-append [] ys k a b = b
  has-append (x ∷ xs) ys k a b = ground (arith, has-append xs ys k)

  -- Fewer keys known before.
  IsNew-fewer :
      (known fewer ks : List K)
      → ((k : K) → has eq known k ≡ false → has eq fewer k ≡ false)
      → IsNew eq known ks
      → IsNew eq fewer ks
  unfolding has
  IsNew-fewer known fewer [] h n = tt
  IsNew-fewer known fewer (k ∷ ks) h n =
      (h k n.0, IsNew-fewer (k ∷ known) (k ∷ fewer) ks (λ i e. ground (arith, h i)) n.1)

  IsUnique-append : (xs ys : List K) → IsUnique eq xs → IsNew eq xs ys → IsUnique eq (xs ++ ys)
  unfolding has
  IsUnique-append [] ys u n = IsNew-IsUnique [] ys n
  IsUnique-append (x ∷ xs) ys u n = (
    has-append xs ys x u.0 (IsNew-has (x ∷ xs) ys x (rw (eq_self x) refl) n),
    IsUnique-append xs ys u.1 (IsNew-fewer (x ∷ xs) xs ys (λ i e. ground arith) n),
  )

-- The state of a new job.
pub data IsInitial : JobState → Type 0 where
  waits : IsInitial queued
  waits_oversize : IsInitial oversize

-- What the checks of a candidate that is accepted establish.
record IsAccepted (paths : Paths) (k : Known) (j a : Job) : Type 0 where
  pub id : has str_eq k.ids a.id ≡ false
  pub random_id : has same_int k.random_ids a.random_id ≡ false
  pub nonzero : is_zero a.random_id ≡ false
  pub state : IsInitial a.state
  pub new_path : has str_eq k.paths (job_path_key paths a.path) ≡ false

accept_as-accepted :
    (s : JobState) (j : Job) {a : Job}
    → s ≡ j.state
    → accept_as s j ≡ accepted a
    → (a.id ≡ j.id) × (a.random_id ≡ j.random_id) × (a.path ≡ j.path) × IsInitial a.state
accept_as-accepted s j q e = grind (arith, waits, waits_oversize)

-- The checks before the last one.
judge_checked :
    (paths : Paths) (k : Known) (j : Job) {a : Job}
    → judge paths k j ≡ accepted a
    → ((has str_eq k.ids j.id ≡ false)
        × (has same_int k.random_ids j.random_id ≡ false)
        × (is_zero j.random_id ≡ false)
        × (has str_eq k.paths (job_path_key paths j.path) ≡ false))
      × (accept_as j.state j ≡ accepted a)
unfolding judge
judge_checked paths k j e = ground arith

judge-IsAccepted :
    (paths : Paths) (k : Known) (j : Job) {a : Job}
    → judge paths k j ≡ accepted a
    → IsAccepted paths k j a
unfolding judge
judge-IsAccepted paths k j {a} e =
    let (checks, last) = judge_checked paths k j e in
    let (id, random, path, state) = accept_as-accepted j.state j refl last in
    record {
      id = rw id checks.0;
      random_id = rw random checks.1;
      nonzero = rw random checks.2;
      state = state;
      new_path = rw path checks.3;
    }

same_int_self : (a : ℤ) → same_int a a ≡ true
same_int_self a = ground (arith, (ne_ℤ_iff a a).1 refl)

same_int_sound : (a b : ℤ) → same_int a b ≡ true → a ≡ b
same_int_sound a b h = (ne_ℤ_iff a b).0 (ground arith)

-- The jobs to append, beside the keys that were known before.
record AreNew (k : Known) (fresh : List Job) : Type 0 where
  pub ids : IsNew str_eq k.ids (map (λ (j : Job). j.id) fresh)
  pub random_ids : IsNew same_int k.random_ids (map (λ (j : Job). j.random_id) fresh)
  pub initial : All (λ (j : Job). IsInitial j.state × (is_zero j.random_id ≡ false)) fresh

prepend-ok :
    (a : Job) (r : Result Err (List Job)) {fresh : List Job}
    → prepend a r ≡ ok fresh
    → (rest : List Job) × (r ≡ ok rest) × (fresh ≡ a ∷ rest)
prepend-ok a (ok js) e = (js, refl, sym (ok_inj e))
prepend-ok a (err x) e = absurd (cc)

-- The queue with the appended jobs.
pub record StaysUnique (current fresh : List Job) : Type 0 where
  pub ids : IsUnique str_eq (ids_of current ++ map (λ (j : Job). j.id) fresh)
  pub random_ids : IsUnique same_int (random_ids_of current ++ map (λ (j : Job). j.random_id) fresh)
  pub initial : All (λ (j : Job). IsInitial j.state × (is_zero j.random_id ≡ false)) fresh

module _ (paths : Paths) where
  joined-AreNew :
      (k : Known) (j : Job) (v : Judged) (rest : Result Err (List Job)) {fresh : List Job}
      → judge paths k j ≡ v
      → ((js : List Job) → rest ≡ ok js → AreNew (next_known paths v k) js)
      → joined v rest ≡ ok fresh
      → AreNew k fresh
  joined-AreNew k j repeated rest {fresh} q ih e = ih fresh e
  joined-AreNew k j (rejected x) rest q ih e = absurd (cc)
  joined-AreNew k j (accepted a) rest q ih e =
      let (js, there, same) = prepend-ok a rest e in
      let good = judge-IsAccepted paths k j q in
      let others = ih js there in
      subst (AreNew k) (sym same) (record {
        ids = (good.id, others.ids);
        random_ids = (good.random_id, others.random_ids);
        initial = ((good.state, good.nonzero), others.initial);
      })

  append_from-AreNew :
      (k : Known) (candidates : List Job) {fresh : List Job}
      → append_from paths k candidates ≡ ok fresh
      → AreNew k fresh
  unfolding append_from
  append_from-AreNew k [] e =
      subst (AreNew k) (ok_inj e) (record { ids = tt; random_ids = tt; initial = tt })
  append_from-AreNew k (j ∷ js) e =
      joined-AreNew k j (judge paths k j)
        (append_from paths (next_known paths (judge paths k j) k) js) refl
        (λ rest q. append_from-AreNew (next_known paths (judge paths k j) k) js q) e

  known_of-ids : (js : List Job) → (known_of paths js).ids ≡ ids_of js
  unfolding known_of
  known_of-ids [] = refl
  known_of-ids (j ∷ js) = simp (known_of-ids js) refl

  known_of-random_ids : (js : List Job) → (known_of paths js).random_ids ≡ random_ids_of js
  unfolding known_of
  known_of-random_ids [] = refl
  known_of-random_ids (j ∷ js) = simp (known_of-random_ids js) refl

  -- If no id and no random id occurs twice in the queue, those that are empty or 0 aside, then none
  -- does in the queue with the jobs that AddJobs appends; each of these has a random id and is queued
  -- or oversize.
  pub append_from-StaysUnique :
      (current candidates fresh : List Job)
      → IsUnique str_eq (ids_of current)
      → IsUnique same_int (random_ids_of current)
      → append_from paths (known_of paths current) candidates ≡ ok fresh
      → StaysUnique current fresh
  append_from-StaysUnique current candidates fresh u v e =
      let k = known_of paths current in
      let new = append_from-AreNew k candidates e in
      record {
        ids =
            IsUnique-append str_eq (λ s. (eq_iff s s).1 refl) (λ a b h. (eq_iff a b).0 h)
              (ids_of current) (map (λ (j : Job). j.id) fresh) u
              (subst (λ ks. IsNew str_eq ks (map (λ (j : Job). j.id) fresh)) (known_of-ids current)
                new.ids);
        random_ids =
            IsUnique-append same_int same_int_self same_int_sound (random_ids_of current)
              (map (λ (j : Job). j.random_id) fresh) v
              (subst (λ ks. IsNew same_int ks (map (λ (j : Job). j.random_id) fresh))
                (known_of-random_ids current) new.random_ids);
        initial = new.initial;
      }
