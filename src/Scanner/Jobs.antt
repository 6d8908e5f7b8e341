-- ===== src/Scanner/Jobs.antt =====
-- The jobs that a scan finds (Scan of internal/scanner/scanner.go).
use telegram_uploader.Prelude.{
  ℕ, suc, ◌%◌, ◌^◌, ◌<◌, Bool, true, false, not, ◌&&◌, List, [], ◌∷◌, Option, none, some, String,
  if◌then◌else◌, Result, ok, err, ok_inj, ◌≡◌, ◌≢◌, ◌⊎◌, inl, inr, refl, sym, ap, subst, ◌∙◌, arith,
}
use mathlib.Core.List.{Perm}
use telegram_uploader.Prelude.Int.{ℤ, pos, ltb_ℤ}
use telegram_uploader.Model.{Job, queued, oversize}
use telegram_uploader.Scanner.Natural.{less, greater, compare_natural}
use telegram_uploader.Scanner.Key.{KeepsDigits}
use telegram_uploader.Scanner.Order.{flip, compare_natural-IsOrder}
use telegram_uploader.Scanner.Scan.{
  Info, Inspected, found, vanished, unreadable, FileEntry, Draw, big_endian, positive_id,
  random_id_of, ids_from, new_ids, scanned_job, Surroundings, is_less, keep_file, list_files,
  sorts_before, cons_job, make_jobs, jobs_of, scan_entries, scan,
}

some_inj : {A : Type 0} {a b : A} → some a ≡ some b → a ≡ b
some_inj h = cc h

-- The random id of Telegram is a positive int64.
pub positive_id-lt : (n : ℕ) → (0 < positive_id (n % 2 ^ 63)) × (positive_id (n % 2 ^ 63) < 2 ^ 63)
positive_id-lt n = ground arith

-- Each element and the one after it are in order.
abbrev pub Ordered : {A : Type 0} → (A → A → Type 0) → List A → Type 0
Ordered R [] = Unit
Ordered R (a ∷ []) = Unit
Ordered R (a ∷ b ∷ rest) = R a b × Ordered R (b ∷ rest)

module _ (s : Surroundings) where
  -- The job of a file at a position.
  pub record IsJobOf (max_bytes : ℤ) (i : ℕ) (f : FileEntry) (j : Job) : Type 0 where
    pub position : j.position ≡ pos i
    pub path : j.path ≡ f.path
    pub name : j.name ≡ f.name
    pub size : j.size ≡ f.size
    pub mod_time : j.mod_time ≡ f.mod_time
    pub state :
        ((j.state ≡ oversize) × (ltb_ℤ (pos 0) max_bytes ≡ true) × (ltb_ℤ max_bytes f.size ≡ true))
        ⊎ ((j.state ≡ queued) × ((ltb_ℤ (pos 0) max_bytes && ltb_ℤ max_bytes f.size) ≡ false))
    pub random_id : (n : ℕ) × (j.random_id ≡ pos n) × (0 < n) × (n < 2 ^ 63)

  abbrev pub JobsOf : ℤ → ℕ → List FileEntry → List Job → Type 0
  JobsOf max_bytes i [] [] = Unit
  JobsOf max_bytes i (f ∷ fs) (j ∷ js) = IsJobOf max_bytes i f j × JobsOf max_bytes (suc i) fs js
  JobsOf max_bytes i fs js = ⊥

  -- The entries that are regular files with the extension of MP4, letter case aside, in the order of
  -- the folder.
  abbrev pub file_of : String → Inspected → List FileEntry → List FileEntry
  file_of name (found info) rest =
      if info.is_regular && (not info.is_symlink && s.equal_fold (s.ext name) ".mp4")
      then record { name = name; path = s.path_of name; size = info.size; mod_time = info.mod_time }
        ∷ rest
      else rest
  file_of name i rest = rest

  abbrev pub videos_of : List String → List FileEntry
  videos_of [] = []
  videos_of (name ∷ names) = file_of name (s.lstat (s.path_of name)) (videos_of names)

  kept :
      (name : String) (info : Info) (gs fs : List FileEntry)
      → keep_file s name (found info) (ok gs) ≡ ok fs
      → fs ≡ file_of name (found info) gs
  kept name info gs fs e = ground arith

  keep_file-ok :
      (name : String) (i : Inspected) (r : Result String (List FileEntry))
      (fs rest : List FileEntry)
      → ((gs : List FileEntry) → r ≡ ok gs → gs ≡ rest)
      → keep_file s name i r ≡ ok fs
      → fs ≡ file_of name i rest
  keep_file-ok name vanished r fs rest h e = h fs e
  keep_file-ok name (unreadable t) r fs rest h e = absurd (cc e)
  keep_file-ok name (found info) (err t) fs rest h e = absurd (cc e)
  keep_file-ok name (found info) (ok gs) fs rest h e =
      let q = h gs refl in
      subst (λ xs. fs ≡ file_of name (found info) xs) q (kept name info gs fs e)

  list_files-ok :
      (names : List String) (fs : List FileEntry)
      → list_files s names ≡ ok fs
      → fs ≡ videos_of names
  unfolding list_files
  list_files-ok [] fs e = sym (ok_inj e)
  list_files-ok (name ∷ names) fs e =
      keep_file-ok name (s.lstat (s.path_of name)) (list_files s names) fs (videos_of names)
        (list_files-ok names) e

  ids_from-positive :
      (o p : Option (List ℕ)) (ids : String × ℤ)
      → ids_from s.hex o p ≡ some ids
      → (n : ℕ) × (ids.1 ≡ pos n) × (0 < n) × (n < 2 ^ 63)
  unfolding random_id_of
  ids_from-positive none p ids e = absurd (cc e)
  ids_from-positive (some b) none ids e = absurd (cc e)
  ids_from-positive (some b) (some r) ids e =
      let n = positive_id-lt (big_endian 0 r) in
      (
        positive_id (big_endian 0 r % 2 ^ 63),
        sym (ap (λ (x : String × ℤ). x.1) (some_inj e)),
        n.0,
        n.1,
      )

  state-cases :
      (a b : Bool)
      → ((if a && b then oversize else queued) ≡ oversize) × (a ≡ true) × (b ≡ true)
        ⊎ (((if a && b then oversize else queued) ≡ queued) × ((a && b) ≡ false))
  state-cases true true = inl (refl, refl, refl)
  state-cases true false = inr (refl, refl)
  state-cases false b = inr (refl, refl)

  scanned_job-IsJobOf :
      (max_bytes : ℤ) (i : ℕ) (f : FileEntry) (d : Draw) (ids : String × ℤ)
      → new_ids s.hex d ≡ some ids
      → IsJobOf max_bytes i f (scanned_job max_bytes i f ids)
  unfolding new_ids
  scanned_job-IsJobOf max_bytes i f d ids e = record {
    position = refl;
    path = refl;
    name = refl;
    size = refl;
    mod_time = refl;
    state = state-cases (ltb_ℤ (pos 0) max_bytes) (ltb_ℤ max_bytes f.size);
    random_id = ids_from-positive d.id_bytes d.random_bytes ids e;
  }

  cons_job-ok :
      (max_bytes : ℤ) (i : ℕ) (f : FileEntry) (fs : List FileEntry) (o : Option (String × ℤ))
      (r : Result String (List Job)) (js : List Job)
      → ((ids : String × ℤ) → o ≡ some ids → IsJobOf max_bytes i f (scanned_job max_bytes i f ids))
      → ((ks : List Job) → r ≡ ok ks → JobsOf max_bytes (suc i) fs ks)
      → cons_job s max_bytes i f o r ≡ ok js
      → JobsOf max_bytes i (f ∷ fs) js
  cons_job-ok max_bytes i f fs none r js h k e = absurd (cc e)
  cons_job-ok max_bytes i f fs (some ids) (err t) js h k e = absurd (cc e)
  cons_job-ok max_bytes i f fs (some ids) (ok ks) js h k e =
      subst (JobsOf max_bytes i (f ∷ fs)) (ok_inj e) (h ids refl, k ks refl)

  make_jobs-ok :
      (max_bytes : ℤ) (i : ℕ) (fs : List FileEntry) (js : List Job)
      → make_jobs s max_bytes i fs ≡ ok js
      → JobsOf max_bytes i fs js
  unfolding make_jobs
  make_jobs-ok max_bytes i [] js e = subst (JobsOf max_bytes i []) (ok_inj e) tt
  make_jobs-ok max_bytes i (f ∷ fs) js e =
      cons_job-ok max_bytes i f fs (new_ids s.hex (s.draw i)) (make_jobs s max_bytes (suc i) fs) js
        (scanned_job-IsJobOf max_bytes i f (s.draw i)) (make_jobs-ok max_bytes (suc i) fs) e

  -- Two jobs in the order of a scan.
  abbrev pub NotAfter : Job → Job → Type 0
  NotAfter a b = compare_natural s.lower (s.name_of a.name) (s.name_of b.name) ≢ greater

  -- What a scan that succeeds has found.
  abbrev pub Scanned : ℤ → Result String (List Job) → Type 0
  Scanned max_bytes (err t) = Unit
  Scanned max_bytes (ok jobs) =
      (names : List String) × (s.entries ≡ ok names)
      × ((files : List FileEntry) × Perm files (videos_of names) × JobsOf max_bytes 0 files jobs)
      × Ordered NotAfter jobs

  module _ (keeps : KeepsDigits s.lower)
      (sorts : (fs : List FileEntry)
        → Ordered (λ a b. sorts_before s b a ≡ false) (s.sort_slice (sorts_before s) fs))
      (permutes : (fs : List FileEntry) → Perm (s.sort_slice (sorts_before s) fs) fs) where
    not_after :
        (a b : FileEntry) (x y : Job)
        → x.name ≡ a.name
        → y.name ≡ b.name
        → sorts_before s b a ≡ false
        → NotAfter x y
    not_after a b x y p q h g =
        let swapped =
          (compare_natural-IsOrder s.lower keeps).swap (s.name_of x.name) (s.name_of y.name)
          ∙ ap flip g in
        let moved : compare_natural s.lower (s.name_of b.name) (s.name_of a.name) ≡ less =
          ap (λ n. compare_natural s.lower (s.name_of n) (s.name_of a.name)) (sym q)
          ∙ ap (λ n. compare_natural s.lower (s.name_of y.name) (s.name_of n)) (sym p)
          ∙ swapped in
        cc (h, ap is_less moved)

    jobs-Ordered :
        (max_bytes : ℤ) (i : ℕ) (fs : List FileEntry) (js : List Job)
        → JobsOf max_bytes i fs js
        → Ordered (λ a b. sorts_before s b a ≡ false) fs
        → Ordered NotAfter js
    jobs-Ordered max_bytes i [] [] h o = tt
    jobs-Ordered max_bytes i [] (j ∷ js) h o = absurd h
    jobs-Ordered max_bytes i (f ∷ fs) [] h o = absurd h
    jobs-Ordered max_bytes i (f ∷ []) (j ∷ []) h o = tt
    jobs-Ordered max_bytes i (f ∷ []) (j ∷ k ∷ js) h o = absurd h.1
    jobs-Ordered max_bytes i (f ∷ g ∷ fs) (j ∷ []) h o = tt
    jobs-Ordered max_bytes i (f ∷ g ∷ fs) (j ∷ k ∷ js) h o = (
      not_after f g j k h.0.name h.1.0.name o.0,
      jobs-Ordered max_bytes (suc i) (g ∷ fs) (k ∷ js) h.1 o.1,
    )

    jobs_of-Scanned :
        (max_bytes : ℤ) (names : List String) (r : Result String (List FileEntry))
        (q : Result String (List Job))
        → s.entries ≡ ok names
        → list_files s names ≡ r
        → jobs_of s max_bytes r ≡ q
        → Scanned max_bytes q
    jobs_of-Scanned max_bytes names r (err t) e l g = tt
    jobs_of-Scanned max_bytes names (err u) (ok jobs) e l g = absurd (cc g)
    jobs_of-Scanned max_bytes names (ok fs) (ok jobs) e l g =
        let sorted = s.sort_slice (sorts_before s) in
        let made = make_jobs-ok max_bytes 0 (sorted fs) jobs g in
        let same = list_files-ok names fs l in
        (
          names,
          e,
          (sorted fs, subst (Perm (sorted fs)) same (permutes fs), made),
          jobs-Ordered max_bytes 0 (sorted fs) jobs made (sorts fs),
        )

    scan_entries-Scanned :
        (max_bytes : ℤ) (r : Result String (List String))
        → s.entries ≡ r
        → Scanned max_bytes (scan_entries s max_bytes r)
    scan_entries-Scanned max_bytes (err t) e = tt
    scan_entries-Scanned max_bytes (ok names) e =
        jobs_of-Scanned max_bytes names (list_files s names)
          (jobs_of s max_bytes (list_files s names)) e refl refl

    -- A scan that succeeds has one job for each regular file of the folder, symbolic links left out,
    -- whose extension is ".mp4" up to letter case, and no other: in the natural order of names,
    -- numbered from 0, with the file's path, name, size and time, over the limit exactly where there
    -- is one that the size exceeds, and with a random id that is a positive int64. Lower case changes
    -- no digit, and the sort permutes the files and leaves none before a smaller one.
    pub scan-Scanned : (max_bytes : ℤ) → Scanned max_bytes (scan s max_bytes)
    unfolding scan
    scan-Scanned max_bytes = scan_entries-Scanned max_bytes s.entries refl
