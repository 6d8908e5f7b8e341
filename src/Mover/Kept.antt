-- ===== src/Mover/Kept.antt =====
-- What a move leaves on the disk (Move of internal/mover/mover.go).
use telegram_uploader.Prelude.{
  ℕ, List, String, Result, ok, err, ◌≡◌, ◌≢◌, sym, ap, subst, ◌∙◌, ◌⊎◌, inl, inr,
}
use telegram_uploader.Mover.Copy.{OsError, not_exist}
use telegram_uploader.Mover.FileOps.{Node, absent, regular, Disk, MoveError, Op, remove}
use telegram_uploader.Mover.Rules.{Ends, Runs}
use telegram_uploader.Mover.Changes.{str-cases, put_node, put-here, put-there, Either, remove-Runs}
use telegram_uploader.Mover.{after_removal, clean, cleanup_on_error}

after_removal-Ends :
    {A : Type 0} (sum : List ℕ → String) (Hurt Safe : (String → Node) → Type 0)
    (Q : A → Disk → Type 0) (e : MoveError)
    (x : Disk × Result MoveError (Result OsError (Unit {0})))
    → ((n : String → Node) → Hurt n → Safe n)
    → Ends (Either sum ⊥ Hurt Safe) (λ d. Safe d.node) x
    → Ends Q (λ d. Safe d.node) (after_removal e x)
after_removal-Ends sum Hurt Safe Q e (d, ok (ok u)) k h = h.0
after_removal-Ends sum Hurt Safe Q e (d, ok (err not_exist)) k h = k d.node h.0
after_removal-Ends sum Hurt Safe Q e (d, ok (err x)) k h = k d.node h.0
after_removal-Ends sum Hurt Safe Q e (d, err x) k h = h

-- The removal of a file that did not exist before.
clean-Ends :
    {A : Type 0} (sum : List ℕ → String) (Hurt Safe : (String → Node) → Type 0)
    (Q : A → Disk → Type 0) (p : String) (x : Disk × Result MoveError A)
    → ((n : String → Node) → Hurt n → Safe n)
    → ((n : String → Node) → Hurt n → Safe (put_node p absent n))
    → Ends Q (λ d. Hurt d.node) x
    → Ends Q (λ d. Safe d.node) (clean p x)
clean-Ends sum Hurt Safe Q p (d, ok a) k g h = h
clean-Ends sum Hurt Safe Q p (d, err e) k g h =
    after_removal-Ends sum Hurt Safe Q e (remove p d) k
      (remove-Runs sum ⊥ Hurt Safe Safe p g d (h, λ f. absurd f))

module _ (sum : List ℕ → String) (F : Type 0) (partial_path : String → String)
    (start : String → Node) (source destination : String) where
  abbrev pub part : String
  part = partial_path destination

  -- Every file is as it was; what else there is did not exist before.
  abbrev pub Safe : (String → Node) → Type 0
  Safe n = (x : String) → (n x ≡ start x) ⊎ ((start x ≡ absent) × ((x ≡ part) ⊎ (x ≡ destination)))

  abbrev pub Same : (String → Node) → Type 0
  Same n = (x : String) → n x ≡ start x

  -- Only the file at `p` is new.
  abbrev pub New : String → (String → Node) → Type 0
  New p n = ((x : String) → x ≢ p → n x ≡ start x) × (start p ≡ absent)

  -- The source is gone and its bytes are at the destination.
  abbrev pub Moved : (String → Node) → Type 0
  Moved n =
      ((x : String) → x ≢ source → x ≢ destination → n x ≡ start x)
      × (n source ≡ absent)
      × (start destination ≡ absent)
      × ((b : List ℕ) × (c : List ℕ) × (start source ≡ regular b)
          × (n destination ≡ regular c)
          × (F → sum c ≡ sum b))

  -- A file that is new at one of the two paths, and may be removed again.
  abbrev pub Hurt : String → (String → Node) → Type 0
  Hurt p n = Safe n × (start p ≡ absent)

  abbrev pub Ours : String → Type 0
  Ours p = (p ≡ part) ⊎ (p ≡ destination)

  pub New-Safe : (p : String) → Ours p → (n : String → Node) → New p n → Safe n
  New-Safe p o n h x = elim (str-cases x p) [
    | inr q ↦ inl (h.0 x q)
    | inl q ↦ inr (ap start q ∙ h.1, subst Ours (sym q) o)
  ]

  pub New-Hurt : (p : String) → Ours p → (n : String → Node) → New p n → Hurt p n
  New-Hurt p o n h = (New-Safe p o n h, h.1)

  Hurt-removed : (p : String) (n : String → Node) → Hurt p n → Safe (put_node p absent n)
  Hurt-removed p n h x = elim (str-cases x p) [
    | inl q ↦ inl (put-here p absent n x q ∙ sym (ap start q ∙ h.1))
    | inr q ↦
        subst (λ m. (m ≡ start x) ⊎ ((start x ≡ absent) × Ours x)) (sym (put-there p absent n x q))
          (h.0 x)
  ]

  pub cleaned-Runs :
      {A : Type 0} (p : String) (P : Disk → Type 0) (Q : A → Disk → Type 0) (m : Op A)
      → Runs P m Q (λ d. Hurt p d.node)
      → Runs P (cleanup_on_error p m) Q (λ d. Safe d.node)
  cleaned-Runs p P Q m h d k =
      clean-Ends sum (Hurt p) Safe Q p (m d) (λ n x. x.0) (Hurt-removed p) (h d k)

  pub created :
      (n : String → Node) (m : Node) → Same n → n part ≡ absent → New part (put_node part m n)
  created n m h e = (λ x q. put-there part m n x q ∙ h x, sym (h part) ∙ e)

  pub filled :
      (n : String → Node) (b : List ℕ) → New part n → New part (put_node part (regular b) n)
  filled n b h = (λ x q. put-there part (regular b) n x q ∙ h.0 x q, h.1)

  start_absent :
      (p : String) (n : String → Node)
      → New p n
      → n destination ≡ absent
      → start destination ≡ absent
  start_absent p n h e = elim (str-cases destination p) [
    | inl q ↦ ap start q ∙ h.1
    | inr q ↦ sym (h.0 destination q) ∙ e
  ]

  pub installed :
      (n : String → Node)
      → New part n
      → n destination ≡ absent
      → (m : Node) → New destination (put_node part absent (put_node destination m n))
  installed n h e m = (
    λ x q. elim (str-cases x part) [
      | inl r ↦ put-here part absent (put_node destination m n) x r ∙ sym (ap start r ∙ h.1)
      | inr r ↦
          put-there part absent (put_node destination m n) x r
          ∙ put-there destination m n x q
          ∙ h.0 x r
    ],
    start_absent part n h e,
  )
