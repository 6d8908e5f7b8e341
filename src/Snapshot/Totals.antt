-- ===== src/Snapshot/Totals.antt =====
-- The byte totals of a snapshot (snapshotLocked and jobProgressBytes of internal/app/controller.go).
use telegram_uploader.Prelude.{
  ℕ, zero, suc, ◌+◌, ◌^◌, ◌≤◌, ◌<◌, List, [], ◌∷◌, ◌≡◌, refl, arith, ap, ◌∙◌, Bool-cases, inl, inr,
}
use telegram_uploader.Prelude.Int.{ℤ, pos, negsuc, ltb_ℤ, ◌+ℤ◌, pos_part}
use telegram_uploader.Model.{Job}
use telegram_uploader.Controller.{Controller, snapshot_locked}
use telegram_uploader.Snapshot.{
  job_progress_bytes, clamp_done, is_delivered, sum_progress, wrap_int64,
}

-- The sizes of all jobs, a negative one counted as nothing.
abbrev pub size_sum : List Job → ℕ
size_sum [] = 0
size_sum (j ∷ js) = pos_part j.size + size_sum js

clamp_done-pos : (n : ℕ) (z : ℤ) → (d : ℕ) × (clamp_done (pos n) z ≡ pos d) × (d ≤ n)
clamp_done-pos n (negsuc k) = (0, ground arith, omega arith)
clamp_done-pos n (pos k) = elim (Bool-cases (ltb_ℤ (pos n) (pos k))) [
  | inl e ↦ (n, ground arith, omega arith)
  | inr e ↦ (k, ground arith, ground arith)
]

progress_at_size :
    (j : Job) (z : ℤ)
    → j.size ≡ z
    → (d : ℕ) × (job_progress_bytes j ≡ (pos (pos_part z), pos d)) × (d ≤ pos_part z)
unfolding job_progress_bytes
progress_at_size j (negsuc k) e = (0, ground arith, omega arith)
progress_at_size j (pos zero) e = (0, ground arith, omega arith)
progress_at_size j (pos (suc n)) e = elim (Bool-cases (is_delivered j.state)) [
  | inl t ↦ (suc n, ground arith, omega arith)
  | inr t ↦ let (d, q, le) = clamp_done-pos (suc n) j.uploaded in (d, ground (arith, e, t, q), le)
]

fits : (n : ℕ) → n < 2 ^ 63 → wrap_int64 (pos n) ≡ pos n
unfolding wrap_int64
fits n h = ground arith

sums : (t n : ℕ) → pos t +ℤ pos n ≡ pos (t + n)
unfolding ◌+ℤ◌
sums t n = ground arith

-- One job's bytes added to the running totals.
added :
    (t d : ℕ) (j : Job)
    → d ≤ t
    → t + pos_part j.size < 2 ^ 63
    → (e : ℕ) × (e ≤ t + pos_part j.size)
      × ((js : List Job)
          → sum_progress (pos t) (pos d) (j ∷ js)
            ≡ sum_progress (pos (t + pos_part j.size)) (pos e) js)
unfolding sum_progress
added t d j le h =
    let (b, q, small) = progress_at_size j j.size refl in
    (
      d + b,
      omega (arith, le, small),
      λ js.
          ap
            (λ (p : ℤ × ℤ). sum_progress (wrap_int64 (pos t +ℤ p.0)) (wrap_int64 (pos d +ℤ p.1)) js)
            q
          ∙ rw
              (
                sums t (pos_part j.size),
                sums d b,
                fits (t + pos_part j.size) h,
                fits (d + b) (omega (arith, le, small, h)),
              )
              refl,
    )

-- From running totals on.
sum_progress_from :
    (t d : ℕ) (js : List Job)
    → d ≤ t
    → t + size_sum js < 2 ^ 63
    → (e : ℕ) × (e ≤ t + size_sum js)
      × (sum_progress (pos t) (pos d) js ≡ (pos (t + size_sum js), pos e))
unfolding sum_progress
sum_progress_from t d [] le h = (d, omega (arith, le), ground arith)
sum_progress_from t d (j ∷ js) le h =
    let (e, small, step) = added t d j le (omega (arith, h)) in
    let (f, bound, q) = sum_progress_from (t + pos_part j.size) e js small (omega (arith, h)) in
    (f, omega (arith, bound), step js ∙ q ∙ ground arith)

-- If the sizes of the jobs, negative ones counted as nothing, sum to less than 2^63, then a snapshot
-- has that sum as its total, without overflow, and its bytes done lie between zero and the total,
-- whatever byte counters the jobs have.
pub snapshot_locked-totals :
    (c : Controller)
    → size_sum c.jobs < 2 ^ 63
    → ((snapshot_locked c).total_bytes ≡ pos (size_sum c.jobs))
      × ((e : ℕ) × ((snapshot_locked c).done_bytes ≡ pos e) × (e ≤ size_sum c.jobs))
unfolding snapshot_locked
snapshot_locked-totals c h =
    let (e, le, q) = sum_progress_from 0 0 c.jobs (omega arith) (omega (arith, h)) in
    (
      ap (λ (p : ℤ × ℤ). p.0) q ∙ ap pos (omega arith),
      (e, ap (λ (p : ℤ × ℤ). p.1) q, omega (arith, le)),
    )
