-- ===== src/Attempt/Counters.antt =====
-- What a progress callback may change (applyProgressForAttempt of internal/app/runner.go).
use telegram_uploader.Prelude.{
  ℕ, zero, suc, ◌==◌, ==_iff, true, false, not, ◌&&◌, List, [], ◌∷◌, Option, none, some, String,
  ◌≡◌, ◌⊎◌, refl, arith, sym, ◌∙◌, get_elem?, Bool-cases, inl, inr, eq_iff,
}
use telegram_uploader.Prelude.Int.{◌≤ℤ◌}
use telegram_uploader.Model.{Job, Progress}
use telegram_uploader.Queue.{find_job_index, modify}
use telegram_uploader.Queue.Lookup.{find_job_index-found}
use telegram_uploader.Controller.{Controller}
use telegram_uploader.World.Honest.{settled}
use telegram_uploader.Actions.{is_transferring}
use telegram_uploader.Attempt.{
  apply_progress_for_attempt, progress_found, progress_at, progress_as, takes_progress,
  is_other_attempt,
}

-- A job before and after a callback of the attempt `a` on the job `id`.
pub record Advanced (id : String) (a : ℕ) (c : Controller) (j k : Job) : Type 0 where
  pub same : settled k ≡ settled j
  pub forward : j.uploaded ≤ℤ k.uploaded
  pub only :
      (k ≡ j)
      ⊎ ((j.id ≡ id)
          × (is_transferring j.state ≡ true)
          × ((a ≡ 0) ⊎ ((c.active_id ≡ id) × (c.active_attempt ≡ a))))

Advanced-refl : (id : String) (a : ℕ) (c : Controller) (j : Job) → Advanced id a c j j
Advanced-refl id a c j = record { same = refl; forward = omega arith; only = inl refl }

modified-elem :
    (f : Job → Job) (n : ℕ) (js : List Job) (i : ℕ) {j : Job}
    → get_elem? js i ≡ some j
    → (get_elem? (modify n f js) i ≡ some j)
      ⊎ ((get_elem? (modify n f js) i ≡ some (f j)) × (get_elem? js n ≡ some j))
unfolding modify
modified-elem f n [] i e = inl e
modified-elem f zero (x ∷ js) zero e = inr (ground arith, e)
modified-elem f zero (x ∷ js) (suc i) e = inl e
modified-elem f (suc n) (x ∷ js) zero e = inl e
modified-elem f (suc n) (x ∷ js) (suc i) e = modified-elem f n js i e

current-callback :
    (id : String) (a : ℕ) (c : Controller)
    → (not (a == 0) && is_other_attempt id a c) ≡ false
    → (a ≡ 0) ⊎ ((c.active_id ≡ id) × (c.active_attempt ≡ a))
current-callback id a c e = elim (Bool-cases (a == 0)) [
  | inl z ↦ inl ((==_iff a 0).0 z)
  | inr z ↦ inr (
    (eq_iff c.active_id id).0 (ground (arith, e, z)),
    (==_iff c.active_attempt a).0 (ground (arith, e, z)),
  )
]

module _ (id : String) (a : ℕ) (p : Progress) (c : Controller)
    (current : (a ≡ 0) ⊎ ((c.active_id ≡ id) × (c.active_attempt ≡ a))) (i : ℕ) (j : Job)
    (there : get_elem? c.jobs i ≡ some j) where
  taken-Advanced :
      (x : Job) → takes_progress p x ≡ true → x.id ≡ id → Advanced id a c x (progress_as p x)
  taken-Advanced x t e = record {
    same = refl;
    forward = ground arith;
    only = inr (e, ground arith, current);
  }

  at-Advanced :
      (n : ℕ) (o : Option Job)
      → get_elem? c.jobs n ≡ o
      → ((x : Job) → o ≡ some x → x.id ≡ id)
      → (k : Job) × (get_elem? (progress_at p n o c).jobs i ≡ some k) × Advanced id a c j k
  at-Advanced n none q h = (j, there, Advanced-refl id a c j)
  at-Advanced n (some x) q h = elim (Bool-cases (takes_progress p x)) [
    | inr t ↦ (j, simp t there, Advanced-refl id a c j)
    | inl t ↦ elim (modified-elem (progress_as p) n c.jobs i there) [
      | inl e ↦ (j, simp t e, Advanced-refl id a c j)
      | inr (e, same) ↦
          let x-j : some x ≡ some j = sym q ∙ same in
          (progress_as p j, simp t e, taken-Advanced j (ground (arith, t, x-j)) (h j x-j))
    ]
  ]

  found-Advanced :
      (r : Option ℕ)
      → find_job_index c.jobs id ≡ r
      → (k : Job) × (get_elem? (progress_found p r c).jobs i ≡ some k) × Advanced id a c j k
  found-Advanced none f = (j, there, Advanced-refl id a c j)
  found-Advanced (some n) f =
      let (x, at, same) = find_job_index-found id c.jobs f in
      at-Advanced n (get_elem? c.jobs n) refl (λ y e. ground (arith, e, at, same))

-- A progress callback keeps every job in its place with nothing changed but its byte counters, and
-- never counts back. It changes only a job with its id that is being uploaded or sent, and, unless
-- its attempt is 0, only while that attempt is the active one.
pub apply_progress-Advanced :
    (id : String) (a : ℕ) (p : Progress) (c : Controller) (i : ℕ) (j : Job)
    → get_elem? c.jobs i ≡ some j
    → (k : Job) × (get_elem? (apply_progress_for_attempt id a p c).jobs i ≡ some k)
      × Advanced id a c j k
unfolding apply_progress_for_attempt
apply_progress-Advanced id a p c i j there =
    elim (Bool-cases (not (a == 0) && is_other_attempt id a c)) [
      | inl e ↦ (j, simp e there, Advanced-refl id a c j)
      | inr e ↦
          let (k, at, d) =
            found-Advanced id a p c (current-callback id a c e) i j there (find_job_index c.jobs id)
              refl in
          (k, simp e at, d)
    ]
