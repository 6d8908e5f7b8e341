-- ===== src/Mover/Batched.antt =====
-- What the moves of several files leave on the disk (MoveBatch and MoveRequests of
-- internal/mover/mover.go).
use telegram_uploader.Prelude.{
  ℕ, ◌+◌, not, List, [], ◌∷◌, String, str_eq, contains, Result, ok, err, ◌≡◌, ◌≢◌, inl, inr, refl,
  sym, ap, ◌∙◌, All,
}
use telegram_uploader.Mover.FileOps.{
  Node, absent, Disk, MoveError, destination_exists, not_regular, not_folder, empty_name, Op, give,
  lift, check_context, lstat, seen_node,
}
use telegram_uploader.Mover.Rules.{
  Ends, Runs, At, in_turn, check_context-Keeps, lift_same-Runs, same_call-Runs,
}
use telegram_uploader.Mover.Outcome.{kept, checked, guarded, destination_absent-then}
use telegram_uploader.Mover.Moves.{Undisturbed, move-Undisturbed}
use telegram_uploader.Mover.{is_regular, move}
use telegram_uploader.Mover.Batch.{
  MoveRequest, BatchItem, preflight, sum_totals, shifted, put_back, emit_if_none, move_items,
  move_all, move_requests, is_folder, requests_in, move_batch,
}

-- The path is not the source of a request.
abbrev pub NotSource : String → List MoveRequest → Type 0
NotSource x requests = All (λ (r : MoveRequest). x ≢ r.source) requests

abbrev NotItem : String → List BatchItem → Type 0
NotItem x items = All (λ (i : BatchItem). x ≢ i.source) items

module _ (sum : List ℕ → String) (partial_path : String → String) (start : String → Node)
    (x : String) (exists : start x ≢ absent) where
  -- The file at `x` is as it was.
  abbrev Stays : (String → Node) → Type 0
  Stays n = n x ≡ start x

  abbrev Calm : Disk → Type 0
  Calm = At sum ⊥ Stays

  abbrev Left : Disk → Type 0
  Left d = Stays d.node

  moved-Stays :
      (source destination : String) (d : Disk) (r : Disk × Result MoveError (Unit {0}))
      → x ≢ source
      → Stays d.node
      → Undisturbed (partial_path destination) source destination d.node r
      → Ends (λ a. Calm) Left r
  moved-Stays source destination d (u, ok a) s h l =
      (l.0 x s (λ q. exists (sym h ∙ ap d.node q ∙ l.2)) ∙ h, λ f. absurd f)
  moved-Stays source destination d (u, err e) s h l = elim (l x) [
    | inl q ↦ q ∙ h
    | inr q ↦ absurd (exists (sym h ∙ q.0))
  ]

  put_back-Ends :
      {A : Type 0} (old : List (ℕ × ℕ)) (offset aggregate : ℕ) (r : Disk × Result MoveError A)
      → Ends (λ a. Calm) Left r
      → Ends (λ a. Calm) Left (put_back old offset aggregate r)
  put_back-Ends old offset aggregate (d, ok a) h = h
  put_back-Ends old offset aggregate (d, err e) h = h

  shifted-Runs :
      (offset aggregate : ℕ) (source destination : String)
      → x ≢ source
      → Runs Calm
          (shifted offset aggregate (move sum partial_path source destination))
          (λ a. Calm)
          Left
  shifted-Runs offset aggregate source destination s d h =
      let u = record d { progress = [] } in
      let r = move sum partial_path source destination u in
      put_back-Ends d.progress offset aggregate r (
        moved-Stays source destination u r s h.0
          (move-Undisturbed sum partial_path source destination u))

  module _ (check : Op (Unit {0})) (check_keeps : Runs Calm check (λ a. Calm) Left) where
    move_items-Runs :
        (offset aggregate : ℕ) (items : List BatchItem)
        → NotItem x items
        → Runs Calm (move_items sum partial_path check offset aggregate items) (λ a. Calm) Left
    unfolding move_items
    move_items-Runs offset aggregate [] n = λ d h. h
    move_items-Runs offset aggregate (i ∷ is) n =
        kept sum ⊥ Stays Stays (λ m s. s) (λ a. Calm) check _ check_keeps
          (λ a.
            kept sum ⊥ Stays Stays (λ m s. s) (λ a. Calm)
              (shifted offset aggregate (move sum partial_path i.source i.destination)) _
              (shifted-Runs offset aggregate i.source i.destination n.0)
              (λ a. move_items-Runs (offset + i.total) aggregate is n.1))

    preflight-Runs :
        (seen : List String) (requests : List MoveRequest)
        → NotSource x requests
        → Runs Calm (preflight check seen requests) (λ items d. Calm d × NotItem x items) Left
    unfolding preflight
    preflight-Runs seen [] n = λ d h. (h, tt)
    preflight-Runs seen (r ∷ rs) n =
        let R : List BatchItem → Disk → Type 0 = λ items d. Calm d × NotItem x items in
        kept sum ⊥ Stays Stays (λ m s. s) R check _ check_keeps
          (λ a.
            kept sum ⊥ Stays Stays (λ m s. s) R (lift (lstat r.source)) _
              (lift_same-Runs sum ⊥ Stays Stays (λ m s. s) (lstat r.source)
                (same_call-Runs sum ⊥ Stays Stays (λ m s. s) (λ d. seen_node (d.node r.source))))
              (λ info.
                guarded sum ⊥ Stays Stays (λ m s. s) R (is_regular info) not_regular _
                  (guarded sum ⊥ Stays Stays (λ m s. s) R (not (contains seen r.destination))
                    destination_exists _
                    (destination_absent-then sum ⊥ Stays Stays (λ m s. s) R r.destination _
                      (in_turn Calm R R Left (preflight check (r.destination ∷ seen) rs) _
                        (preflight-Runs (r.destination ∷ seen) rs n.1)
                        (λ items d h. (h.0, (n.0, h.1))))))))

    move_all-Runs :
        (items : List BatchItem)
        → NotItem x items
        → Runs Calm (move_all sum partial_path check items) (λ a. Calm) Left
    move_all-Runs items n =
        kept sum ⊥ Stays Stays (λ m s. s) (λ a. Calm)
          (move_items sum partial_path check 0 (sum_totals items) items) _
          (move_items-Runs 0 (sum_totals items) items n) (λ a. none_moved items)
      where
        none_moved : (items : List BatchItem) → Runs Calm (emit_if_none items) (λ a. Calm) Left
        none_moved [] d h = h
        none_moved (i ∷ is) d h = h

  checks : Runs Calm check_context (λ a. Calm) Left
  checks = check_context-Keeps sum ⊥ Stays Stays (λ m s. s)

  move_requests-Runs :
      (requests : List MoveRequest)
      → NotSource x requests
      → Runs Calm (move_requests sum partial_path requests) (λ a. Calm) Left
  unfolding move_requests
  move_requests-Runs requests n =
      checked sum ⊥ Stays Stays (λ m s. s) (λ a. Calm) _
        (in_turn Calm (λ items d. Calm d × NotItem x items) (λ a. Calm) Left
          (preflight (give tt) [] requests) _ (preflight-Runs (give tt) (λ d h. h) [] requests n)
          (λ items d h. move_all-Runs (give tt) (λ d h. h) items h.1 d h.0))

  requests_in-NotSource :
      (into : String → String) (sources : List String)
      → All (λ s. x ≢ s) sources
      → NotSource x (requests_in into sources)
  requests_in-NotSource into [] n = tt
  requests_in-NotSource into (s ∷ ss) n = (n.0, requests_in-NotSource into ss n.1)

  move_batch-Runs :
      (join_base : String → String → String) (sources : List String) (folder : String)
      → All (λ s. x ≢ s) sources
      → Runs Calm (move_batch sum partial_path join_base sources folder) (λ a. Calm) Left
  unfolding move_batch
  move_batch-Runs join_base sources folder n =
      let requests = requests_in (join_base folder) sources in
      checked sum ⊥ Stays Stays (λ m s. s) (λ a. Calm) _
        (guarded sum ⊥ Stays Stays (λ m s. s) (λ a. Calm) (not (str_eq folder "")) empty_name _
          (kept sum ⊥ Stays Stays (λ m s. s) (λ a. Calm) (lift (lstat folder)) _
            (lift_same-Runs sum ⊥ Stays Stays (λ m s. s) (lstat folder)
              (same_call-Runs sum ⊥ Stays Stays (λ m s. s) (λ d. seen_node (d.node folder))))
            (λ info.
              guarded sum ⊥ Stays Stays (λ m s. s) (λ a. Calm) (is_folder info) not_folder _
                (in_turn Calm (λ items d. Calm d × NotItem x items) (λ a. Calm) Left
                  (preflight check_context [] requests) _
                  (preflight-Runs check_context checks [] requests
                    (requests_in-NotSource (join_base folder) sources n))
                  (λ items d h. move_all-Runs check_context checks items h.1 d h.0)))))

same_node :
    (sum : List ℕ → String) (start : String → Node) (x : String)
    (r : Disk × Result MoveError (Unit {0}))
    → Ends (λ a. At sum ⊥ (λ n. n x ≡ start x)) (λ d. d.node x ≡ start x) r
    → r.0.node x ≡ start x
same_node sum start x (d, ok a) h = h.0
same_node sum start x (d, err e) h = h

-- MoveBatch overwrites and loses no file that it is not asked to move: whether it succeeds or fails,
-- every file that existed before and is not one of the sources is as it was.
pub move_batch_keeps :
    (sum : List ℕ → String) (partial_path : String → String) (join_base : String → String → String)
    (sources : List String) (folder x : String) (d : Disk)
    → d.node x ≢ absent
    → All (λ s. x ≢ s) sources
    → (move_batch sum partial_path join_base sources folder d).0.node x ≡ d.node x
move_batch_keeps sum partial_path join_base sources folder x d e n =
    same_node sum d.node x (move_batch sum partial_path join_base sources folder d) (
      move_batch-Runs sum partial_path d.node x e join_base sources folder n d
        (refl, λ f. absurd f))

-- MoveRequests overwrites and loses no file that it is not asked to move: whether it succeeds or
-- fails, every file that existed before and is not the source of a request is as it was.
pub move_requests_keeps :
    (sum : List ℕ → String) (partial_path : String → String) (requests : List MoveRequest)
    (x : String) (d : Disk)
    → d.node x ≢ absent
    → NotSource x requests
    → (move_requests sum partial_path requests d).0.node x ≡ d.node x
move_requests_keeps sum partial_path requests x d e n =
    same_node sum d.node x (move_requests sum partial_path requests d)
      (move_requests-Runs sum partial_path d.node x e requests n d (refl, λ f. absurd f))
