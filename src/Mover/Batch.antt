-- ===== src/Mover/Batch.antt =====
-- The moves of several files (MoveBatch and MoveRequests of internal/mover/mover.go). `Base` and
-- `Join` give the destination of a source in a folder.
use telegram_uploader.Prelude.{
  ℕ, ◌+◌, min, Bool, false, not, List, [], ◌∷◌, ◌++◌, map, String, str_eq, contains, Result,
}
use telegram_uploader.Mover.FileOps.{
  Node, special, Disk, MoveError, destination_exists, not_regular, not_folder, empty_name, Op,
  ◌>>=◌, ◌>>◌, give, guard, lift, check_context, lstat, emit,
}
use telegram_uploader.Mover.{destination_absent, file_size, is_regular, move}

pub record MoveRequest : Type 0 where
  pub source : String
  pub destination : String

pub record BatchItem : Type 0 where
  pub source : String
  pub destination : String
  pub total : ℕ

abbrev pub item_of : MoveRequest → Node → BatchItem
item_of r info = record { source = r.source; destination = r.destination; total = file_size info }

-- Every source is looked at before the first is moved; `check` is what comes first each time.
unfoldable pub preflight : Op (Unit {0}) → List String → List MoveRequest → Op (List BatchItem)
preflight check seen [] = give []
preflight check seen (r ∷ rs) =
    let rest = preflight check (r.destination ∷ seen) rs in
    do
      check
      info ← lift (lstat r.source)
      guard (is_regular info) not_regular
      guard (not (contains seen r.destination)) destination_exists
      destination_absent r.destination
      items ← rest
      give (item_of r info ∷ items)

abbrev pub sum_totals : List BatchItem → ℕ
sum_totals [] = 0
sum_totals (i ∷ is) = i.total + sum_totals is

-- A move reports its progress on top of what was moved before.
abbrev pub shift : ℕ → ℕ → ℕ × ℕ → ℕ × ℕ
shift offset aggregate (done, total) = (min (offset + done) aggregate, aggregate)

abbrev pub put_back :
    {A : Type 0} → List (ℕ × ℕ) → ℕ → ℕ → Disk × Result MoveError A → Disk × Result MoveError A
put_back old offset aggregate (d, r) =
    (record d { progress = old ++ map (shift offset aggregate) d.progress }, r)

abbrev pub shifted : {A : Type 0} → ℕ → ℕ → Op A → Op A
shifted offset aggregate m d = put_back d.progress offset aggregate (m (record d { progress = [] }))

abbrev pub emit_if_none : List BatchItem → Op (Unit {0})
emit_if_none [] = emit 0 0
emit_if_none (i ∷ is) = give tt

abbrev pub is_folder : Node → Bool
is_folder (special folder) = folder
is_folder n = false

abbrev pub requests_in : (String → String) → List String → List MoveRequest
requests_in into [] = []
requests_in into (s ∷ ss) = record { source = s; destination = into s } ∷ requests_in into ss

module _ (sum : List ℕ → String) (partial_path : String → String) where
  unfoldable pub move_items : Op (Unit {0}) → ℕ → ℕ → List BatchItem → Op (Unit {0})
  move_items check offset aggregate [] = give tt
  move_items check offset aggregate (i ∷ is) =
      let rest = move_items check (offset + i.total) aggregate is in
      do check; shifted offset aggregate (move sum partial_path i.source i.destination); rest

  abbrev pub move_all : Op (Unit {0}) → List BatchItem → Op (Unit {0})
  move_all check items = do move_items check 0 (sum_totals items) items; emit_if_none items

  unfoldable pub move_requests : List MoveRequest → Op (Unit {0})
  move_requests requests = do
    check_context
    items ← preflight (give tt) [] requests
    move_all (give tt) items

  unfoldable pub move_batch : (String → String → String) → List String → String → Op (Unit {0})
  move_batch join_base sources folder = do
    check_context
    guard (not (str_eq folder "")) empty_name
    info ← lift (lstat folder)
    guard (is_folder info) not_folder
    items ← preflight check_context [] (requests_in (join_base folder) sources)
    move_all check_context items
