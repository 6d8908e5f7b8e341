-- ===== src/Mover/Outcome.antt =====
-- How a move ends (Move and copyAfterEXDEV of internal/mover/mover.go).
use telegram_uploader.Prelude.{
  ℕ, ◌==◌, Bool, true, false, not, ◌||◌, List, [], Option, none, some, String, str_eq, eq_iff,
  Result, ok, err, ◌≡◌, ◌≢◌, refl, sym, ap, ◌∙◌, inl, inr,
}
use telegram_uploader.Mover.Copy.{OsError, not_exist, exists, cross_device}
use telegram_uploader.Mover.FileOps.{
  Node, absent, special, regular, Disk, MoveError, checksum_mismatch, not_regular, empty_name,
  wrong_size, Op, ◌>>=◌, ◌>>◌, guard, lift, or_fail, check_context, lstat, rename, open_file,
  create_partial, remove, sync_or_close, emit, write_partial, seen_node,
}
use telegram_uploader.Mover.Rules.{
  Runs, At, Content, in_turn, check_context-Keeps, lift-Runs, lift_same-Runs, same_call-Runs,
  open_same-Runs, lstat-Runs, hash_file-Runs,
}
use telegram_uploader.Mover.Changes.{
  put_node, put-here, put-there, Either, unless_exists-Runs, create_partial-Runs, rename-Runs,
  remove-Runs, write_partial-Runs,
}
use telegram_uploader.Mover.Kept.{
  Safe, Same, New, Moved, Hurt, New-Hurt, cleaned-Runs, created, filled, installed,
}
use telegram_uploader.Mover.{
  absent_if, destination_absent, unless_exists, cleanup_on_error, file_size, is_regular, copy_ended,
  hash_file, fill, finish, copy_after_exdev, after_rename, move,
}

pub guarded_with :
    {B : Type 0} (Q S : Disk → Type 0) (R : B → Disk → Type 0) (E : Disk → Type 0) (b : Bool)
    (e : MoveError) (k : Op B)
    → ((d : Disk) → Q d → b ≡ true → S d)
    → ((d : Disk) → Q d → E d)
    → Runs S k R E
    → Runs Q (guard b e >> k) R E
unfolding ◌>>=◌
guarded_with Q S R E true e k f g h d q = h d (f d q refl)
guarded_with Q S R E false e k f g h d q = g d q

-- Operations that change nothing, in front of others.
module _ (sum : List ℕ → String) (F : Type 0) (P Bad : (String → Node) → Type 0)
    (bad : (n : String → Node) → P n → Bad n) {B : Type 0} (R : B → Disk → Type 0) where
  abbrev Goal : Op B → Type 0
  Goal k = Runs (At sum F P) k R (λ d. Bad d.node)

  pub kept :
      {A : Type 0} (m : Op A) (k : A → Op B)
      → Runs (At sum F P) m (λ a. At sum F P) (λ d. Bad d.node)
      → ((a : A) → Goal (k a))
      → Goal (m >>= k)
  kept m k h g = in_turn (At sum F P) (λ a. At sum F P) R (λ d. Bad d.node) m k h g

  pub checked : (k : Op B) → Goal k → Goal (check_context >> k)
  checked k g = kept check_context (λ a. k) (check_context-Keeps sum F P Bad bad) (λ a. g)

  pub guarded : (b : Bool) (e : MoveError) (k : Op B) → Goal k → Goal (guard b e >> k)
  guarded b e k g =
      guarded_with (At sum F P) (At sum F P) R (λ d. Bad d.node) b e k (λ d h q. h)
        (λ d h. bad d.node h.0) g

  synced : (k : Op B) → Goal k → Goal (lift sync_or_close >> k)
  synced k g =
      kept (lift sync_or_close) (λ a. k)
        (lift_same-Runs sum F P Bad bad sync_or_close (same_call-Runs sum F P Bad bad (λ d. ok tt)))
        (λ a. g)

  copy_ended-then :
      (o : Option OsError) (closed : Result OsError (Unit {0})) (k : Op B)
      → Goal k
      → Goal (copy_ended o closed >> k)
  unfolding ◌>>=◌
  copy_ended-then (some e) closed k g d h = bad d.node h.0
  copy_ended-then none (ok u) k g d h = g d h
  copy_ended-then none (err e) k g d h = bad d.node h.0

  absent_if-Runs :
      (r : Result OsError Node)
      → Runs (At sum F P) (absent_if r) (λ a. At sum F P) (λ d. Bad d.node)
  absent_if-Runs (ok n) d h = bad d.node h.0
  absent_if-Runs (err not_exist) d h = h
  absent_if-Runs (err e) d h = bad d.node h.0

  pub destination_absent-then : (p : String) (k : Op B) → Goal k → Goal (destination_absent p >> k)
  unfolding destination_absent
  destination_absent-then p k g =
      kept (destination_absent p) (λ a. k)
        (in_turn (At sum F P) (λ r. At sum F P) (λ a. At sum F P) (λ d. Bad d.node) (lstat p)
          absent_if (same_call-Runs sum F P Bad bad (λ d. seen_node (d.node p))) absent_if-Runs)
        (λ a. g)

  hashed :
      (p : String) (k : String → Op B)
      → ((h : String)
          → Runs (λ d. At sum F P d × Content sum F p h d.node) (k h) R (λ d. Bad d.node))
      → Goal (hash_file sum p >>= k)
  hashed p k g =
      in_turn (At sum F P) (λ h d. At sum F P d × Content sum F p h d.node) R (λ d. Bad d.node)
        (hash_file sum p) k (hash_file-Runs sum F P Bad bad p) g

module _ (sum : List ℕ → String) (F : Type 0) (partial_path : String → String)
    (start : String → Node) (source destination : String) where
  abbrev Fresh : String → (String → Node) → Type 0
  Fresh p = New sum F partial_path start source destination p

  abbrev Broken : String → (String → Node) → Type 0
  Broken p = Hurt sum F partial_path start source destination p

  abbrev whole : String
  whole = partial_path destination

  fill-Runs :
      (total : ℕ) (digest : String)
      → Runs
          (At sum F (Fresh whole))
          (fill sum source destination whole total digest)
          (λ a. At sum F (Fresh destination))
          (λ d. Broken whole d.node)
  unfolding fill
  fill-Runs total digest =
      let P = Fresh whole in
      let E = Broken whole in
      let e = New-Hurt sum F partial_path start source destination whole (inl refl) in
      let R : Unit {0} → Disk → Type 0 = λ a. At sum F (Fresh destination) in
      kept sum F P E e R (emit 0 total) _ (λ d h. h)
        (λ a.
          kept sum F P E e R (lift (open_file source)) _
            (lift_same-Runs sum F P E e (open_file source) (open_same-Runs sum F P E e source))
            (λ reads.
              kept sum F P E e R (write_partial whole total reads) _
                (write_partial-Runs sum F P E whole total reads
                  (filled sum F partial_path start source destination))
                (λ c.
                  kept sum F P E e R sync_or_close _ (same_call-Runs sum F P E e (λ d. ok tt))
                    (λ closed. copy_ended-then sum F P E e R c.1 closed _ (
                      guarded sum F P E e R (c.0 == total) wrong_size _ (
                        checked sum F P E e R _ (
                          synced sum F P E e R _ (
                            synced sum F P E e R _ (
                              hashed sum F P E e R whole _ (λ written d h.
                                guarded sum F P E e R (str_eq written digest) checksum_mismatch _
                                  (destination_absent-then sum F P E e R destination _ (
                                    checked sum F P E e R _ (
                                      in_turn (At sum F P) (Either sum F P (Fresh destination)) R
                                        (λ d. E d.node) (rename whole destination) unless_exists
                                        (rename-Runs sum F P (Fresh destination) E whole destination
                                          (λ n h absent m q k.
                                            installed sum F partial_path start source destination n
                                              h absent m))
                                        (unless_exists-Runs sum F P (Fresh destination) E e))))
                                  d h.0))))))))))

  -- The source is removed once the destination has its bytes.
  abbrev Verified : String → (String → Node) → Type 0
  Verified digest n = Fresh destination n × Content sum F source digest start

  abbrev Checked : String → (String → Node) → Type 0
  Checked digest n = Verified digest n × Content sum F destination digest n

  abbrev Done : (String → Node) → Type 0
  Done = Moved sum F partial_path start source destination

  agreed :
      (digest installed : String) (n : String → Node)
      → Content sum F destination installed n
      → installed ≡ digest
      → Content sum F destination digest n
  agreed digest installed n (c, at, same) q = (c, at, λ f. sym q ∙ same f)

  source_differs : (digest : String) (n : String → Node) → Verified digest n → source ≢ destination
  source_differs digest n (h, c) q = cc (ap start q, c.1, h.1)

  removed :
      (digest : String) (n : String → Node) → Checked digest n → Done (put_node source absent n)
  removed digest n (v, (c, at, same)) = (
    λ x q r. put-there source absent n x q ∙ v.0.0 x r,
    put-here source absent n source refl,
    v.0.1,
    (
      v.1.0,
      c,
      v.1.1,
      put-there source absent n destination (λ q. source_differs digest n v (sym q)) ∙ at,
      λ f. sym (same f) ∙ v.1.2 f,
    ),
  )

  or_fail-Runs :
      (digest : String) (r : Result OsError (Unit {0}))
      → Runs
          (Either sum F (Checked digest) Done r)
          (or_fail r)
          (λ a. At sum F Done)
          (λ d. Broken destination d.node)
  or_fail-Runs digest (ok u) d h = h
  or_fail-Runs digest (err e) d h =
      New-Hurt sum F partial_path start source destination destination (inr refl) d.node h.0.0.0

  finish-Runs :
      (total : ℕ) (digest : String)
      → Runs
          (At sum F (Verified digest))
          (finish sum source destination total digest)
          (λ a. At sum F Done)
          (λ d. Broken destination d.node)
  unfolding finish
  finish-Runs total digest =
      let P = Verified digest in
      let E = Broken destination in
      let broken = New-Hurt sum F partial_path start source destination destination (inr refl) in
      let C = Checked digest in
      let R : Unit {0} → Disk → Type 0 = λ a. At sum F Done in
      synced sum F P E (λ n h. broken n h.0) R _
        (hashed sum F P E (λ n h. broken n h.0) R destination _
          (λ installed.
            guarded_with (λ d. At sum F P d × Content sum F destination installed d.node)
              (At sum F C) R (λ d. E d.node) (str_eq installed digest) checksum_mismatch _
              (λ d h q. (
                (h.0.0, agreed digest installed d.node h.1 ((eq_iff installed digest).0 q)),
                h.0.1,
              ))
              (λ d h. broken d.node h.0.0.0)
              (hashed sum F C E (λ n h. broken n h.0.0) R source _
                (λ current d h.
                  guarded sum F C E (λ n h. broken n h.0.0) R (str_eq current digest)
                    checksum_mismatch _
                    (checked sum F C E (λ n h. broken n h.0.0) R _
                      (in_turn (At sum F C) R R (λ d. E d.node) (lift (remove source))
                        (λ a. emit total total)
                        (in_turn (At sum F C) (Either sum F C Done) R (λ d. E d.node)
                          (remove source) or_fail
                          (remove-Runs sum F C Done E source (removed digest))
                          (or_fail-Runs digest))
                        (λ a d h. h)))
                    d h.0))))

  -- The copy between devices.
  abbrev Start : (String → Node) → Type 0
  Start = Same sum F partial_path start source destination

  abbrev KeptSafe : (String → Node) → Type 0
  KeptSafe = Safe sum F partial_path start source destination

  Same-Safe : (n : String → Node) → Start n → KeptSafe n
  Same-Safe n h x = inl (h x)

  started :
      (digest : String) (n : String → Node)
      → Start n
      → Content sum F source digest n
      → Content sum F source digest start
  started digest n h (c, at, same) = (c, sym (h source) ∙ at, same)

  copy-Runs :
      (total : ℕ)
      → Runs
          (At sum F Start)
          (copy_after_exdev sum partial_path source destination total)
          (λ a. At sum F Done)
          (λ d. KeptSafe d.node)
  unfolding copy_after_exdev
  copy-Runs total =
      let E = KeptSafe in
      let R : Unit {0} → Disk → Type 0 = λ a. At sum F Done in
      let clean_up = cleaned-Runs sum F partial_path start source destination in
      checked sum F Start E Same-Safe R _ (
        hashed sum F Start E Same-Safe R source _ (λ digest d h.
          let c = started digest d.node h.0.0 h.1 in
          in_turn (At sum F Start) (Either sum F Start (Fresh whole)) R (λ d. E d.node)
            (create_partial whole) _
            (create_partial-Runs sum F Start (Fresh whole) E whole
              (λ n k e. created sum F partial_path start source destination n (regular []) k e))
            (λ r.
              in_turn (Either sum F Start (Fresh whole) r) (λ a. At sum F (Fresh whole)) R
                (λ d. E d.node) (unless_exists r) _
                (unless_exists-Runs sum F Start (Fresh whole) E Same-Safe r)
                (λ a.
                  in_turn (At sum F (Fresh whole)) (λ a. At sum F (Fresh destination)) R
                    (λ d. E d.node)
                    (cleanup_on_error whole (fill sum source destination whole total digest)) _
                    (clean_up whole (At sum F (Fresh whole)) (λ a. At sum F (Fresh destination))
                      (fill sum source destination whole total digest) (fill-Runs total digest))
                    (λ a d' k.
                      clean_up destination (At sum F (Verified digest)) R
                        (finish sum source destination total digest) (finish-Runs total digest) d'
                        ((k.0, c), k.1))))
            d h.0))

  -- A plain rename.
  renamed :
      (b : List ℕ) (n : String → Node)
      → start source ≡ regular b
      → Start n
      → n destination ≡ absent
      → (m : Node) → n source ≡ m
      → Done (put_node source absent (put_node destination m n))
  renamed b n s h e m q =
      let differs : source ≢ destination = λ x. cc (sym s ∙ sym (h source) ∙ ap n x ∙ e) in
      (
        λ x u v.
            put-there source absent (put_node destination m n) x u
            ∙ put-there destination m n x v
            ∙ h x,
        put-here source absent (put_node destination m n) source refl,
        sym (h destination) ∙ e,
        (
          b,
          b,
          s,
          put-there source absent (put_node destination m n) destination (λ x. differs (sym x))
              ∙ put-here destination m n destination refl
              ∙ sym q
              ∙ h source
              ∙ s,
          λ f. refl,
        ),
      )

  after_rename-Runs :
      (total : ℕ) (r : Result OsError (Unit {0}))
      → Runs
          (Either sum F Start Done r)
          (after_rename sum partial_path source destination total r)
          (λ a. At sum F Done)
          (λ d. KeptSafe d.node)
  after_rename-Runs total (ok u) d h = h
  after_rename-Runs total (err exists) d h = Same-Safe d.node h.0
  after_rename-Runs total (err cross_device) d h =
      destination_absent-then sum F Start KeptSafe Same-Safe (λ a. At sum F Done) destination _
        (copy-Runs total) d h
  after_rename-Runs total (err e) d h = Same-Safe d.node h.0

  regular_start :
      (m : Node)
      → start source ≡ m
      → is_regular m ≡ true
      → (b : List ℕ) × (start source ≡ regular b)
  regular_start (regular b) e h = (b, e)
  regular_start absent e h = absurd (cc h)
  regular_start (special k) e h = absurd (cc h)

  pub move-Runs :
      Runs
        (At sum F Start)
        (move sum partial_path source destination)
        (λ a. At sum F Done)
        (λ d. KeptSafe d.node)
  unfolding move
  move-Runs =
      let E = KeptSafe in
      let R : Unit {0} → Disk → Type 0 = λ a. At sum F Done in
      checked sum F Start E Same-Safe R _ (
        guarded sum F Start E Same-Safe R (not (str_eq source "" || str_eq destination ""))
          empty_name _
          (in_turn (At sum F Start) (λ info d. At sum F Start d × (d.node source ≡ info)) R
            (λ d. E d.node) (lift (lstat source)) _
            (lift-Runs sum F Start E Same-Safe (λ m node. node source ≡ m) (lstat source)
              (lstat-Runs sum F Start E Same-Safe source))
            (λ info.
              guarded_with (λ d. At sum F Start d × (d.node source ≡ info))
                (λ d. At sum F Start d × ((b : List ℕ) × (start source ≡ regular b))) R
                (λ d. E d.node) (is_regular info) not_regular _
                (λ d h q. (h.0, regular_start info (sym (h.0.0 source) ∙ h.1) q))
                (λ d h. Same-Safe d.node h.0.0)
                (λ d h.
                  destination_absent-then sum F Start E Same-Safe R destination _
                    (checked sum F Start E Same-Safe R _ (
                      in_turn (At sum F Start) (Either sum F Start Done) R (λ d. E d.node)
                        (rename source destination) _
                        (rename-Runs sum F Start Done E source destination
                          (λ n k absent m q x. renamed h.1.0 n h.1.1 k absent m q))
                        (after_rename-Runs (file_size info))))
                    d h.0))))
