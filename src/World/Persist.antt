-- ===== src/World/Persist.antt =====
-- What persist and persistCandidate of internal/app leave on disk and in memory.
use telegram_uploader.Prelude.{
  ℕ, ◌≤◌, ◌-◌, if◌then◌else◌, ◌==◌, ==_refl, ==_iff, Bool, true, false, List, [], Option, none,
  some, ◌≡◌, refl, ◌≢◌, arith, length, Bool-cases, inl, inr, String, sym, ◌∙◌, ap,
}
use telegram_uploader.Model.{Job, Channel}
use telegram_uploader.Store.{Contents}
use telegram_uploader.Controller.{Controller}
use telegram_uploader.World.Honest.{
  IsHonestWorld, SameDurable, interfere_held-SameDurable, interfere_held-keeps,
}
use telegram_uploader.World.{
  World, Persisted, saved, changed, persist_candidate, interfere, interfere_held, interfere_with,
  interfere_held_with, save_contents, save_candidate, contents, verdict,
}

-- A save touches the file and the outcomes to come, and nothing else.
pub save_contents-rest :
    (q : Contents) (w : World)
    → ((save_contents q w).0.ctl ≡ w.ctl)
      × ((save_contents q w).0.env ≡ w.env)
      × ((save_contents q w).1 ≡ none → (save_contents q w).0.disk ≡ some q)
unfolding save_contents
save_contents-rest q w = ground arith

-- What a successful save of a candidate shows.
pub record IsSaved (jobs : List Job) (channel : Channel) (paused : Bool) (revision : ℕ)
    (w w' : World) : Type 0 where
  pub before : w.ctl.queue_revision ≡ revision
  pub after : w'.ctl.queue_revision ≡ revision
  pub on_disk : w'.disk ≡ some (contents w.ctl jobs channel paused)
  pub same : SameDurable w.ctl w'.ctl
  pub honest : IsHonestWorld w'
  pub store : w'.ctl.has_store ≡ w.ctl.has_store

verdict-saved : (f : Option String) (b : Bool) → verdict f b ≡ saved → (f ≡ none) × (b ≡ true)
verdict-saved f b h = ground arith

module _ (jobs : List Job) (channel : Channel) (paused : Bool) (revision : ℕ) (w : World) where
  -- Others act at most once in a candidate's save.
  pub persist_candidate-env :
      length (persist_candidate jobs channel paused revision w).0.env ≤ length w.env
  unfolding persist_candidate save_candidate
  persist_candidate-env = ground arith

  pub persist_candidate_current :
      w.ctl.has_store ≡ true
      → (w.ctl.queue_revision == revision) ≡ true
      → persist_candidate jobs channel paused revision w
        ≡ save_candidate jobs channel paused revision w
  unfolding persist_candidate
  persist_candidate_current s r = simp (s, r)

  pub persist_candidate_stale :
      w.ctl.has_store ≡ true
      → (w.ctl.queue_revision == revision) ≡ false
      → persist_candidate jobs channel paused revision w ≡ (w, changed)
  unfolding persist_candidate
  persist_candidate_stale s r = simp (s, r)

  pub persist_candidate_no_store :
      w.ctl.has_store ≡ false → persist_candidate jobs channel paused revision w ≡ (w, saved)
  unfolding persist_candidate
  persist_candidate_no_store s = simp s

  module _ (h : IsHonestWorld w) where
    save_candidate-IsSaved :
        w.ctl.queue_revision ≡ revision
        → (save_candidate jobs channel paused revision w).1 ≡ saved
        → IsSaved jobs channel paused revision w (save_candidate jobs channel paused revision w).0
    unfolding save_candidate
    save_candidate-IsSaved r q =
        let u = (save_contents (contents w.ctl jobs channel paused) w).0 in
        let rest = save_contents-rest (contents w.ctl jobs channel paused) w in
        let (fine, same) = verdict-saved _ _ q in
        let honest : IsHonestWorld u = rw rest.1 h in
        let keeps = interfere_held-keeps u honest in
        let still : (interfere_held u).ctl.queue_revision ≡ revision = (==_iff _ _).0 same in
        record {
          before = r;
          after = still;
          on_disk = keeps.2 ∙ rest.2 fine;
          same = rw rest.0 at (
              interfere_held-SameDurable u honest
                (still ∙ sym r ∙ sym (ap (λ (c : Controller). c.queue_revision) rest.0)));
          honest = keeps.0;
          store = keeps.1 ∙ ap (λ (c : Controller). c.has_store) rest.0;
        }

    -- A save that reports success met the revision that it was made for, before and after the write.
    pub persist_candidate-IsSaved :
        w.ctl.has_store ≡ true
        → (persist_candidate jobs channel paused revision w).1 ≡ saved
        → IsSaved jobs channel paused revision w
            (persist_candidate jobs channel paused revision w).0
    persist_candidate-IsSaved s q = elim (Bool-cases (w.ctl.queue_revision == revision)) [
      | inl r ↦
          rw (persist_candidate_current s r)
            (save_candidate-IsSaved ((==_iff _ _).0 r) (rw (persist_candidate_current s r) at q))
      | inr r ↦ cc (rw (persist_candidate_stale s r) at q)
    ]

-- What others may still do is honest, and the store is there or not, as before.
abbrev pub Keeps : World → World → Type 0
Keeps w u = IsHonestWorld u × (u.ctl.has_store ≡ w.ctl.has_store)

module _ (jobs : List Job) (channel : Channel) (paused : Bool) (revision : ℕ) (w : World) where
  save_candidate-Keeps : IsHonestWorld w → Keeps w (save_candidate jobs channel paused revision w).0
  unfolding save_candidate
  save_candidate-Keeps h =
      let q = contents w.ctl jobs channel paused in
      let rest = save_contents-rest q w in
      let keeps = interfere_held-keeps (save_contents q w).0 (rw rest.1 h) in
      (keeps.0, keeps.1 ∙ ap (λ (c : Controller). c.has_store) rest.0)

  pub persist_candidate-Keeps :
      IsHonestWorld w → Keeps w (persist_candidate jobs channel paused revision w).0
  persist_candidate-Keeps h = elim (Bool-cases w.ctl.has_store) [
    | inl s ↦ elim (Bool-cases (w.ctl.queue_revision == revision)) [
      | inl r ↦
          rw (persist_candidate_current jobs channel paused revision w s r) (save_candidate-Keeps h)
      | inr r ↦ rw (persist_candidate_stale jobs channel paused revision w s r) (h, refl)
    ]
    | inr s ↦ rw (persist_candidate_no_store jobs channel paused revision w s) (h, refl)
  ]

-- Nobody else acts.
pub interfere_quiet : (w : World) → w.env ≡ [] → interfere w ≡ w
unfolding interfere interfere_with
interfere_quiet w e = ap (λ is. interfere_with is w) e

pub interfere_held_quiet : (w : World) → w.env ≡ [] → interfere_held w ≡ w
unfolding interfere_held interfere_held_with
interfere_held_quiet w e = ap (λ is. interfere_held_with is w) e

pub interfere-env : (w : World) → length (interfere w).env ≡ length w.env - 1
unfolding interfere interfere_with
interfere-env w = ground arith

-- A save with nobody else acting.
abbrev pub plain_save : List Job → Channel → Bool → World → World × Persisted
plain_save jobs channel paused w =
    let (u, failure) = save_contents (contents w.ctl jobs channel paused) w in
    (u, verdict failure true)

module _ (jobs : List Job) (channel : Channel) (paused : Bool) (w : World) (e : w.env ≡ []) where
  save_candidate_quiet :
      save_candidate jobs channel paused w.ctl.queue_revision w ≡ plain_save jobs channel paused w
  unfolding save_candidate
  save_candidate_quiet =
      let q = contents w.ctl jobs channel paused in
      let rest = save_contents-rest q w in
      let alone : interfere_held (save_contents q w).0 ≡ (save_contents q w).0 =
        interfere_held_quiet (save_contents q w).0 (rest.1 ∙ e) in
      simp (alone, rest.0, ==_refl)

  -- In a quiet world the revision is never found changed.
  pub persist_candidate_quiet :
      persist_candidate jobs channel paused w.ctl.queue_revision w
      ≡ (if w.ctl.has_store then plain_save jobs channel paused w else (w, saved))
  persist_candidate_quiet = elim (Bool-cases w.ctl.has_store) [
    | inl s ↦
        persist_candidate_current jobs channel paused w.ctl.queue_revision w s (==_refl _)
        ∙ save_candidate_quiet
        ∙ simp s
    | inr s ↦ persist_candidate_no_store jobs channel paused w.ctl.queue_revision w s ∙ simp s
  ]

pub verdict-ne-changed : (f : Option String) → verdict f true ≢ changed
verdict-ne-changed f = ground arith

-- The result of `persist_candidate` in a quiet world is not `changed`.
pub quiet-ne-changed :
    (jobs : List Job) (channel : Channel) (paused : Bool) (w : World)
    → (if w.ctl.has_store then plain_save jobs channel paused w else (w, saved)).1 ≢ changed
quiet-ne-changed jobs channel paused w = elim (Bool-cases w.ctl.has_store) [
  | inl s ↦ simp s (verdict-ne-changed _)
  | inr s ↦ simp s (λ q. cc)
]

-- A save with nobody else acting leaves the controller alone.
pub persist_candidate_alone :
    (jobs : List Job) (channel : Channel) (paused : Bool) (w : World)
    → w.env ≡ []
    → let (u, r) = persist_candidate jobs channel paused w.ctl.queue_revision w in
      (r ≢ changed) × (u.ctl ≡ w.ctl) × (u.env ≡ [])
persist_candidate_alone jobs channel paused w e =
    rw (persist_candidate_quiet jobs channel paused w e) (elim (Bool-cases w.ctl.has_store) [
      | inl s ↦
          let rest = save_contents-rest (contents w.ctl jobs channel paused) w in
          simp s (verdict-ne-changed _, rest.0, rest.1 ∙ e)
      | inr s ↦ simp s ((λ q. cc), refl, e)
    ])
