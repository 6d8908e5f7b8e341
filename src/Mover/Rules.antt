-- ===== src/Mover/Rules.antt =====
-- Rules for the operations of a move (internal/mover/mover.go): what holds of the disk before an
-- operation, after its success and after its failure.
use telegram_uploader.Prelude.{
  append_nil, ℕ, Bool, true, false, List, [], ◌∷◌, Option, none, some, String, Result, ok, err, ◌≡◌,
  refl, ap, subst, ◌∙◌, inl, inr, Bool-cases, All,
}
use telegram_uploader.Mover.Copy.{
  OsError, end_of_file, Read, Copied, write_chunk, ended, copy_with_context, readable,
}
use telegram_uploader.Mover.Exact.{copy_with_context-Arrived, Arrived}
use telegram_uploader.Mover.FileOps.{
  Node, absent, special, regular, Step, calm, Disk, MoveError, Op, then_run, ◌>>=◌, ◌>>◌, guard,
  or_fail, lift, step_of, steps_after, pop, answer, call, check_context, lstat, seen_node,
  open_file, open_node, sync_or_close, nothing, give,
}
use telegram_uploader.Mover.{hash_file, hash_read, copy_ended}

abbrev pub Ends :
    {A : Type 0} → (A → Disk → Type 0) → (Disk → Type 0) → Disk × Result MoveError A → Type 0
Ends Q E (d, ok a) = Q a d
Ends Q E (d, err e) = E d

abbrev pub Runs :
    {A : Type 0} → (Disk → Type 0) → Op A → (A → Disk → Type 0) → (Disk → Type 0) → Type 0
Runs P m Q E = (d : Disk) → P d → Ends Q E (m d)

then_run-Ends :
    {A B : Type 0} (Q : A → Disk → Type 0) (R : B → Disk → Type 0) (E : Disk → Type 0)
    (k : A → Op B) (x : Disk × Result MoveError A)
    → Ends Q E x
    → ((a : A) → Runs (Q a) (k a) R E)
    → Ends R E (then_run x k)
then_run-Ends Q R E k (d, ok a) h f = f a d h
then_run-Ends Q R E k (d, err e) h f = h

-- A sequence of two operations.
pub in_turn :
    {A B : Type 0} (P : Disk → Type 0) (Q : A → Disk → Type 0) (R : B → Disk → Type 0)
    (E : Disk → Type 0) (m : Op A) (k : A → Op B)
    → Runs P m Q E
    → ((a : A) → Runs (Q a) (k a) R E)
    → Runs P (m >>= k) R E
unfolding ◌>>=◌
in_turn P Q R E m k f g d h = then_run-Ends Q R E k (m d) (f d h) g

abbrev all_read : Option OsError → Bool → Bool
all_read none rest = rest
all_read (some end_of_file) rest = true
all_read (some e) rest = false

-- No read of the reader fails.
abbrev pub reads_all : List Read → Bool
reads_all [] = true
reads_all (r ∷ rs) = let rest = reads_all rs in all_read r.error rest

-- A file that is read to its end without an error has given its bytes.
abbrev pub IsFaithful : Step → Type 0
IsFaithful s =
    (bytes : List ℕ) → reads_all (s.reads bytes) ≡ true → readable (s.reads bytes) ≡ bytes

abbrev CleanIf : Bool → Option OsError → Type 0
CleanIf b none = b ≡ true
CleanIf b (some e) = Unit

ended-Clean :
    (error : Option OsError) (b : Bool) (c : Copied) (again : Copied × Option OsError)
    → CleanIf b again.1
    → CleanIf (all_read error b) (ended error c again).1
ended-Clean none b c again h = h
ended-Clean (some end_of_file) b c again h = refl
ended-Clean (some e) b c again h = tt

write_chunk-fine :
    (bytes : List ℕ) (c : Copied)
    → ((write_chunk [] bytes c).0 ≡ []) × ((write_chunk [] bytes c).2 ≡ none)
unfolding write_chunk
write_chunk-fine [] c = (refl, refl)
write_chunk-fine (b ∷ bs) c = (refl, refl)

copy-Clean : (rs : List Read) (c : Copied) → CleanIf (reads_all rs) (copy_with_context rs [] c).1
unfolding copy_with_context
copy-Clean [] c = refl
copy-Clean (r ∷ rs) c =
    let w = write_chunk [] r.chunk c in
    let fine = write_chunk-fine r.chunk c in
    elim (Bool-cases r.done) [
      | inl e ↦ simp e tt
      | inr e ↦
          simp (e, fine.1, fine.0)
            (ended-Clean r.error (reads_all rs) w.1 (copy_with_context rs [] w.1)
              (copy-Clean rs w.1))
    ]

-- The bytes at a path, and their digest if all reads are faithful.
module _ (sum : List ℕ → String) (F : Type 0) where
  abbrev pub Trusted : List Step → Type 0
  Trusted steps = F → All IsFaithful steps

  abbrev pub Content : String → String → (String → Node) → Type 0
  Content p digest node = (bytes : List ℕ) × (node p ≡ regular bytes) × (F → digest ≡ sum bytes)

  pub Trusted-after : (steps : List Step) → Trusted steps → Trusted (steps_after steps)
  Trusted-after [] t f = tt
  Trusted-after (s ∷ rest) t f = (t f).1

  pub calm-IsFaithful : IsFaithful calm
  calm-IsFaithful [] h = refl
  calm-IsFaithful (b ∷ bs) h = append_nil (b ∷ bs)

  Trusted-step : (steps : List Step) → Trusted steps → F → IsFaithful (step_of steps)
  Trusted-step [] t f = calm-IsFaithful
  Trusted-step (s ∷ rest) t f = (t f).0

  -- An assertion on the files, with the script still trusted.
  abbrev pub At : ((String → Node) → Type 0) → Disk → Type 0
  At P d = P d.node × Trusted d.steps

  -- What a reader of a path gives.
  abbrev Opened : String → List Read → (String → Node) → Type 0
  Opened p reads node =
      (bytes : List ℕ) × (node p ≡ regular bytes)
      × (F → reads_all reads ≡ true → readable reads ≡ bytes)

  module _ (P Safe : (String → Node) → Type 0) (safe : (n : String → Node) → P n → Safe n) where
    abbrev pub Keeps : {A : Type 0} → Op A → Type 0
    Keeps m = Runs (At P) m (λ a. At P) (λ d. Safe d.node)

    pop-At : (d : Disk) → At P d → At P (pop d)
    pop-At d h = (h.0, Trusted-after d.steps h.1)

    pub guard-Runs :
        (Q : Disk → Type 0) (q : (d : Disk) → Q d → P d.node) (b : Bool) (e : MoveError)
        → Runs Q (guard b e) (λ a d. Q d × (b ≡ true)) (λ d. Safe d.node)
    guard-Runs Q q true e d h = (h, refl)
    guard-Runs Q q false e d h = safe d.node (q d h)

    pub check_context-Keeps : Keeps check_context
    check_context-Keeps d h = elim (Bool-cases (step_of d.steps).done) [
      | inl e ↦ simp e (safe d.node h.0)
      | inr e ↦ simp e (pop-At d h)
    ]

    -- A call that changes no file, and what its answer says of them.
    abbrev Answered :
        {A : Type 0} → (A → (String → Node) → Type 0) → Result OsError A → Disk → Type 0
    Answered R (ok a) d = At P d × R a d.node
    Answered R (err e) d = At P d

    pub answer-Ends :
        {A : Type 0} (R : A → (String → Node) → Type 0) (o : Option OsError) (d : Disk)
        (r : Result OsError A)
        → At P d
        → Answered R r d
        → Ends (Answered R) (λ d. Safe d.node) (answer o d (d, r))
    answer-Ends R (some e) d r h k = h
    answer-Ends R none d r h k = k

    pub lift-Runs :
        {A : Type 0} (R : A → (String → Node) → Type 0) (m : Op (Result OsError A))
        → Runs (At P) m (Answered R) (λ d. Safe d.node)
        → Runs (At P) (lift m) (λ a d. At P d × R a d.node) (λ d. Safe d.node)
    lift-Runs {A = A} R m h =
        in_turn (At P) (Answered R) (λ a d. At P d × R a d.node) (λ d. Safe d.node) m or_fail h
          (λ r. lifted r)
      where
        lifted :
            (r : Result OsError A)
            → Runs (Answered R r) (or_fail r) (λ a d. At P d × R a d.node) (λ d. Safe d.node)
        lifted (ok a) d k = k
        lifted (err e) d k = safe d.node k.0

    same_answer-Ends :
        {A : Type 0} (o : Option OsError) (d : Disk) (r : Result OsError A)
        → At P d
        → Ends (λ x. At P) (λ d. Safe d.node) (answer o d (d, r))
    same_answer-Ends (some e) d r h = h
    same_answer-Ends none d r h = h

    pub same_call-Runs :
        {A : Type 0} (g : Disk → Result OsError A)
        → Runs (At P) (call (λ d. (d, g d))) (λ x. At P) (λ d. Safe d.node)
    same_call-Runs g d h = same_answer-Ends (step_of d.steps).fault (pop d) (g (pop d)) (pop-At d h)

    pub or_fail-Runs :
        {A : Type 0} (r : Result OsError A) → Runs (At P) (or_fail r) (λ a. At P) (λ d. Safe d.node)
    or_fail-Runs (ok a) d h = h
    or_fail-Runs (err e) d h = safe d.node h.0

    pub lift_same-Runs :
        {A : Type 0} (m : Op (Result OsError A))
        → Runs (At P) m (λ r. At P) (λ d. Safe d.node)
        → Runs (At P) (lift m) (λ a. At P) (λ d. Safe d.node)
    lift_same-Runs m h =
        in_turn (At P) (λ r. At P) (λ a. At P) (λ d. Safe d.node) m or_fail h or_fail-Runs

    pub open_same-Runs : (p : String) → Runs (At P) (open_file p) (λ r. At P) (λ d. Safe d.node)
    open_same-Runs p d h = same_call-Runs (λ u. open_node (step_of d.steps).reads (u.node p)) d h

    seen_node-Answered :
        (p : String) (n : Node) (d : Disk)
        → d.node p ≡ n
        → At P d
        → Answered (λ m node. node p ≡ m) (seen_node n) d
    seen_node-Answered p absent d e h = h
    seen_node-Answered p (special k) d e h = (h, e)
    seen_node-Answered p (regular bytes) d e h = (h, e)

    pub lstat-Runs :
        (p : String) → Runs (At P) (lstat p) (Answered (λ m node. node p ≡ m)) (λ d. Safe d.node)
    lstat-Runs p d h =
        answer-Ends (λ m node. node p ≡ m) (step_of d.steps).fault (pop d) (seen_node (d.node p))
          (pop-At d h) (seen_node-Answered p (d.node p) (pop d) refl (pop-At d h))

    open_node-Answered :
        (p : String) (s : Step) (n : Node) (d : Disk)
        → (F → IsFaithful s)
        → d.node p ≡ n
        → At P d
        → Answered (Opened p) (open_node s.reads n) d
    open_node-Answered p s absent d f e h = h
    open_node-Answered p s (special k) d f e h = h
    open_node-Answered p s (regular bytes) d f e h = (h, (bytes, e, λ x. f x bytes))

    open_file-Runs :
        (p : String) → Runs (At P) (open_file p) (Answered (Opened p)) (λ d. Safe d.node)
    open_file-Runs p d h =
        let s = step_of d.steps in
        answer-Ends (Opened p) s.fault (pop d) (open_node s.reads (d.node p)) (pop-At d h)
          (open_node-Answered p s (d.node p) (pop d) (Trusted-step d.steps h.1) refl (pop-At d h))

  delivered-Content :
      (p : String) (reads : List Read) (node : String → Node)
      → Opened p reads node
      → (copy_with_context reads [] nothing).1 ≡ none
      → Content p (sum (copy_with_context reads [] nothing).0.out) node
  delivered-Content p reads node (bytes, e, f) q =
      let x = copy_with_context reads [] nothing in
      let arrived =
        subst (Arrived [] (readable reads) x.0.out) q
          (copy_with_context-Arrived reads [] nothing) in
      let clean = subst (CleanIf (reads_all reads)) q (copy-Clean reads nothing) in
      (bytes, e, λ t. ap sum (arrived ∙ f t clean))

  pub copy_ended-Runs :
      (Q E : Disk → Type 0) (q : (d : Disk) → Q d → E d) (o : Option OsError)
      (closed : Result OsError (Unit {0}))
      → Runs Q (copy_ended o closed) (λ a d. Q d × (o ≡ none)) E
  copy_ended-Runs Q E q (some e) closed d h = q d h
  copy_ended-Runs Q E q none (ok u) d h = (h, refl)
  copy_ended-Runs Q E q none (err e) d h = q d h

  module _ (P Safe : (String → Node) → Type 0) (safe : (n : String → Node) → P n → Safe n) where
    abbrev ReadFrom : String → List Read → (String → Node) → Type 0
    ReadFrom p reads n = P n × Opened p reads n

    closed-Runs :
        (p : String) (reads : List Read) (closed : Result OsError (Unit {0}))
        → Runs
            (At (ReadFrom p reads))
            (do
              copy_ended (copy_with_context reads [] nothing).1 closed
              give (sum (copy_with_context reads [] nothing).0.out))
            (λ digest d. At P d × Content p digest d.node)
            (λ d. Safe d.node)
    closed-Runs p reads closed =
        let x = copy_with_context reads [] nothing in
        in_turn (At (ReadFrom p reads)) (λ a d. At (ReadFrom p reads) d × (x.1 ≡ none))
          (λ digest d. At P d × Content p digest d.node) (λ d. Safe d.node) (copy_ended x.1 closed)
          (λ a. give (sum x.0.out))
          (copy_ended-Runs (At (ReadFrom p reads)) (λ d. Safe d.node) (λ d h. safe d.node h.0.0) x.1
            closed)
          (λ a d h. ((h.0.0.0, h.0.1), delivered-Content p reads d.node h.0.0.1 h.1))

    -- A hash that is computed without an error is that of the bytes at the path, and no file changes.
    pub hash_file-Runs :
        (p : String)
        → Runs
            (At P)
            (hash_file sum p)
            (λ digest d. At P d × Content p digest d.node)
            (λ d. Safe d.node)
    unfolding hash_file
    hash_file-Runs p =
        in_turn (At P) (λ reads d. At P d × Opened p reads d.node)
          (λ digest d. At P d × Content p digest d.node) (λ d. Safe d.node) (lift (open_file p))
          (λ reads. hash_read sum (copy_with_context reads [] nothing))
          (lift-Runs P Safe safe (Opened p) (open_file p) (open_file-Runs P Safe safe p))
          (λ reads d h.
            in_turn (At (ReadFrom p reads)) (λ r. At (ReadFrom p reads))
              (λ digest d. At P d × Content p digest d.node) (λ d. Safe d.node) sync_or_close
              (λ closed.
                copy_ended (copy_with_context reads [] nothing).1 closed
                >> give (sum (copy_with_context reads [] nothing).0.out))
              (same_call-Runs (ReadFrom p reads) Safe (λ n h. safe n h.0) (λ d. ok tt))
              (closed-Runs p reads) d ((h.0.0, h.1), h.0.1))
