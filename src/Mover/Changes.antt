-- ===== src/Mover/Changes.antt =====
-- The calls of a move that change a file (internal/mover/mover.go): creation, rename, removal and the
-- writes of a copy.
use telegram_uploader.Prelude.{
  ℕ, List, [], ◌∷◌, Option, none, some, String, str_eq, eq_iff, if◌then◌else◌, Result, ok, err, ◌≡◌,
  ◌≢◌, refl, sym, subst, ◌⊎◌, inl, inr, Bool-cases, All,
}
use telegram_uploader.Mover.Copy.{OsError, exists, Read, copy_with_context}
use telegram_uploader.Mover.FileOps.{
  Node, absent, special, regular, Disk, step_of, pop, put, answer, create_partial, create_node,
  rename, rename_node, remove, remove_node, emit_progress, emit_all, write_partial, nothing,
}
use telegram_uploader.Mover.Rules.{Ends, Runs, At, Trusted-after}
use telegram_uploader.Mover.{unless_exists, clean, cleanup_on_error, after_removal}

pub str-cases : (x y : String) → (x ≡ y) ⊎ (x ≢ y)
str-cases x y = elim (Bool-cases (str_eq x y)) [
  | inl e ↦ inl ((eq_iff x y).0 e)
  | inr e ↦ inr (λ q. cc (e, (eq_iff x y).1 q))
]

abbrev pub put_node : String → Node → (String → Node) → String → Node
put_node p n node x = if str_eq x p then n else node x

pub put-here :
    (p : String) (n : Node) (node : String → Node) (x : String) → x ≡ p → put_node p n node x ≡ n
put-here p n node x e = simp ((eq_iff x p).1 e) refl

pub put-there :
    (p : String) (n : Node) (node : String → Node) (x : String)
    → x ≢ p
    → put_node p n node x ≡ node x
put-there p n node x e = elim (Bool-cases (str_eq x p)) [
  | inl q ↦ absurd (e ((eq_iff x p).0 q))
  | inr q ↦ simp q refl
]

emit_all-same :
    (ns : List ℕ) (total : ℕ) (d : Disk)
    → ((emit_all ns total d).node ≡ d.node) × ((emit_all ns total d).steps ≡ d.steps)
emit_all-same [] total d = (refl, refl)
emit_all-same (n ∷ ns) total d = emit_all-same ns total (emit_progress n total d)

module _ (sum : List ℕ → String) (F : Type 0) where
  -- A call that fails has changed nothing.
  abbrev pub Either :
      ((String → Node) → Type 0)
      → ((String → Node) → Type 0)
      → Result OsError (Unit {0})
      → Disk
      → Type 0
  Either P Q (ok u) d = At sum F Q d
  Either P Q (err e) d = At sum F P d

  module _ (P Q Safe : (String → Node) → Type 0) where
    fail-Either :
        (o : Option OsError) (d : Disk) (x : Disk × Result OsError (Unit {0}))
        → At sum F P d
        → Either P Q x.1 x.0
        → Ends (Either P Q) (λ d. Safe d.node) (answer o d x)
    fail-Either (some e) d (u, r) h k = h
    fail-Either none d (u, r) h k = k

    pub unless_exists-Runs :
        (safe : (n : String → Node) → P n → Safe n) (r : Result OsError (Unit {0}))
        → Runs (Either P Q r) (unless_exists r) (λ a. At sum F Q) (λ d. Safe d.node)
    unless_exists-Runs safe (ok u) d h = h
    unless_exists-Runs safe (err exists) d h = safe d.node h.0
    unless_exists-Runs safe (err e) d h = safe d.node h.0

    create-Either :
        (p : String) (m : Node) (d : Disk)
        → ((n : String → Node) → P n → n p ≡ absent → Q (put_node p (regular []) n))
        → d.node p ≡ m
        → At sum F P d
        → Either P Q (create_node p m d).1 (create_node p m d).0
    create-Either p absent d f e h = (f d.node h.0 e, h.1)
    create-Either p (special k) d f e h = h
    create-Either p (regular b) d f e h = h

    pub create_partial-Runs :
        (p : String)
        → ((n : String → Node) → P n → n p ≡ absent → Q (put_node p (regular []) n))
        → Runs (At sum F P) (create_partial p) (Either P Q) (λ d. Safe d.node)
    create_partial-Runs p f d h =
        let u = pop d in
        let k : At sum F P u = (h.0, Trusted-after sum F d.steps h.1) in
        fail-Either (step_of d.steps).fault u (create_node p (u.node p) u) k
          (create-Either p (u.node p) u f refl k)

    rename-Either :
        (p q : String) (m n : Node) (d : Disk)
        → ((node : String → Node)
            → P node
            → node q ≡ absent
            → (m : Node) → node p ≡ m
            → m ≢ absent
            → Q (put_node p absent (put_node q m node)))
        → d.node p ≡ m
        → d.node q ≡ n
        → At sum F P d
        → Either P Q (rename_node p q m n d).1 (rename_node p q m n d).0
    rename-Either p q absent n d f e g h = h
    rename-Either p q (special k) absent d f e g h = (f d.node h.0 g (special k) e (λ x. cc x), h.1)
    rename-Either p q (regular b) absent d f e g h = (f d.node h.0 g (regular b) e (λ x. cc x), h.1)
    rename-Either p q (special k) (special l) d f e g h = h
    rename-Either p q (special k) (regular c) d f e g h = h
    rename-Either p q (regular b) (special k) d f e g h = h
    rename-Either p q (regular b) (regular c) d f e g h = h

    pub rename-Runs :
        (p q : String)
        → ((node : String → Node)
            → P node
            → node q ≡ absent
            → (m : Node) → node p ≡ m
            → m ≢ absent
            → Q (put_node p absent (put_node q m node)))
        → Runs (At sum F P) (rename p q) (Either P Q) (λ d. Safe d.node)
    rename-Runs p q f d h =
        let u = pop d in
        let k : At sum F P u = (h.0, Trusted-after sum F d.steps h.1) in
        fail-Either (step_of d.steps).fault u (rename_node p q (u.node p) (u.node q) u) k
          (rename-Either p q (u.node p) (u.node q) u f refl refl k)

    remove-Either :
        (p : String) (m : Node) (d : Disk)
        → ((n : String → Node) → P n → Q (put_node p absent n))
        → At sum F P d
        → Either P Q (remove_node p m d).1 (remove_node p m d).0
    remove-Either p absent d f h = h
    remove-Either p (special k) d f h = (f d.node h.0, h.1)
    remove-Either p (regular b) d f h = (f d.node h.0, h.1)

    pub remove-Runs :
        (p : String)
        → ((n : String → Node) → P n → Q (put_node p absent n))
        → Runs (At sum F P) (remove p) (Either P Q) (λ d. Safe d.node)
    remove-Runs p f d h =
        let u = pop d in
        let k : At sum F P u = (h.0, Trusted-after sum F d.steps h.1) in
        fail-Either (step_of d.steps).fault u (remove_node p (u.node p) u) k
          (remove-Either p (u.node p) u f k)

  -- A copy into a file changes no other one.
  pub write_partial-Runs :
      (P Safe : (String → Node) → Type 0) (p : String) (total : ℕ) (reads : List Read)
      → ((n : String → Node) (b : List ℕ) → P n → P (put_node p (regular b) n))
      → Runs (At sum F P) (write_partial p total reads) (λ r. At sum F P) (λ d. Safe d.node)
  write_partial-Runs P Safe p total reads f d h =
      let s = step_of d.steps in
      let c = (copy_with_context reads s.writes nothing).0 in
      let same = emit_all-same c.reports total (put p (regular (s.stored c.out)) (pop d)) in
      (
        subst P (sym same.0) (f d.node (s.stored c.out) h.0),
        λ t.
            subst (All telegram_uploader.Mover.Rules.IsFaithful) (sym same.1)
              (Trusted-after sum F d.steps h.1 t),
      )
