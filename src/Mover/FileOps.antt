-- ===== src/Mover/FileOps.antt =====
-- The file operations of a move (moveOps of internal/mover/mover.go), over a disk on which only the
-- move acts. The operating system's behaviour is scripted, one step for each call: it may fail, reads
-- and writes may be cut up, and a medium may store other bytes than it was given. A rename never
-- replaces a file (renameNoReplace), and a call that fails has no effect.
use telegram_uploader.Prelude.{
  ℕ, min, Bool, true, false, not, List, [], ◌∷◌, ◌++◌, Option, none, some, String, str_eq,
  if◌then◌else◌, length, Result, ok, err,
}
use telegram_uploader.Mover.Copy.{
  OsError, not_exist, exists, Read, Write, Copied, copy_with_context,
}

pub data Node : Type 0 where
  absent : Node
  special : Bool → Node  -- a folder, or another kind of file
  regular : List ℕ → Node

-- `done`: the context is done at a check. `reads` says how a file that is opened is read.
pub record Step : Type 0 where
  pub done : Bool
  pub fault : Option OsError
  pub reads : List ℕ → List Read
  pub writes : List Write
  pub stored : List ℕ → List ℕ

abbrev pub calm : Step
calm = record {
  done = false;
  fault = none;
  reads = λ bytes. record { done = false; chunk = bytes; error = none } ∷ [];
  writes = [];
  stored = λ bytes. bytes;
}

-- `progress` are the calls of the progress callback, bytes done and total.
pub record Disk : Type 0 where
  pub node : String → Node
  pub steps : List Step
  pub progress : List (ℕ × ℕ)

pub data MoveError : Type 0 where
  stopped destination_exists checksum_mismatch not_regular not_folder empty_name wrong_size :
      MoveError
  failed : OsError → MoveError
  joined : MoveError → OsError → MoveError

abbrev pub Op : Type 0 → Type 0
Op A = Disk → Disk × Result MoveError A

abbrev pub then_run :
    {A B : Type 0} → Disk × Result MoveError A → (A → Op B) → Disk × Result MoveError B
then_run (d, ok a) k = k a d
then_run (d, err e) k = (d, err e)

infixl 5 ◌>>=◌ ◌>>◌
unfoldable pub ◌>>=◌ : {A B : Type 0} → Op A → (A → Op B) → Op B
(m >>= k) d = then_run (m d) k

abbrev pub ◌>>◌ : {A B : Type 0} → Op A → Op B → Op B
m >> k = m >>= λ a. k

abbrev pub give : {A : Type 0} → A → Op A
give a d = (d, ok a)

abbrev pub fail : {A : Type 0} → MoveError → Op A
fail e d = (d, err e)

abbrev pub guard : Bool → MoveError → Op (Unit {0})
guard true e = give tt
guard false e = fail e

-- An error of the operating system ends the move.
abbrev pub or_fail : {A : Type 0} → Result OsError A → Op A
or_fail (ok a) = give a
or_fail (err e) = fail (failed e)

abbrev pub lift : {A : Type 0} → Op (Result OsError A) → Op A
lift m = m >>= or_fail

abbrev pub step_of : List Step → Step
step_of [] = calm
step_of (s ∷ rest) = s

abbrev pub steps_after : List Step → List Step
steps_after [] = []
steps_after (s ∷ rest) = rest

abbrev pub pop : Disk → Disk
pop d = record d { steps = steps_after d.steps }

abbrev pub put : String → Node → Disk → Disk
put p n d = record d { node = λ x. if str_eq x p then n else d.node x }

-- A call with its effect and its result, where it does not fail.
abbrev pub answer :
    {A : Type 0}
    → Option OsError
    → Disk
    → Disk × Result OsError A
    → Disk × Result MoveError (Result OsError A)
answer (some e) d (u, r) = (d, ok (err e))
answer none d (u, r) = (u, ok r)

abbrev pub call : {A : Type 0} → (Disk → Disk × Result OsError A) → Op (Result OsError A)
call f d = answer (step_of d.steps).fault (pop d) (f (pop d))

-- ctx.Err()
abbrev pub check_context : Op (Unit {0})
check_context d = guard (not (step_of d.steps).done) stopped (pop d)

abbrev pub seen_node : Node → Result OsError Node
seen_node absent = err not_exist
seen_node n = ok n

abbrev pub lstat : String → Op (Result OsError Node)
lstat p = call (λ d. (d, seen_node (d.node p)))

abbrev pub rename_node : String → String → Node → Node → Disk → Disk × Result OsError (Unit {0})
rename_node p q absent n d = (d, err not_exist)
rename_node p q m absent d = (put p absent (put q m d), ok tt)
rename_node p q m n d = (d, err exists)

abbrev pub rename : String → String → Op (Result OsError (Unit {0}))
rename p q = call (λ d. rename_node p q (d.node p) (d.node q) d)

abbrev pub open_node : (List ℕ → List Read) → Node → Result OsError (List Read)
open_node reads (regular bytes) = ok (reads bytes)
open_node reads n = err not_exist

abbrev pub open_file : String → Op (Result OsError (List Read))
open_file p d = call (λ u. (u, open_node (step_of d.steps).reads (u.node p))) d

abbrev pub create_node : String → Node → Disk → Disk × Result OsError (Unit {0})
create_node p absent d = (put p (regular []) d, ok tt)
create_node p n d = (d, err exists)

abbrev pub create_partial : String → Op (Result OsError (Unit {0}))
create_partial p = call (λ d. create_node p (d.node p) d)

abbrev pub remove_node : String → Node → Disk → Disk × Result OsError (Unit {0})
remove_node p absent d = (d, err not_exist)
remove_node p n d = (put p absent d, ok tt)

abbrev pub remove : String → Op (Result OsError (Unit {0}))
remove p = call (λ d. remove_node p (d.node p) d)

-- Sync, Close and SyncDir change no file.
abbrev pub sync_or_close : Op (Result OsError (Unit {0}))
sync_or_close = call (λ d. (d, ok tt))

-- emitProgress
abbrev pub emit_progress : ℕ → ℕ → Disk → Disk
emit_progress done total d = record d { progress = d.progress ++ (min done total, total) ∷ [] }

abbrev pub emit : ℕ → ℕ → Op (Unit {0})
emit done total d = (emit_progress done total d, ok tt)

abbrev pub emit_all : List ℕ → ℕ → Disk → Disk
emit_all [] total d = d
emit_all (n ∷ ns) total d = emit_all ns total (emit_progress n total d)

abbrev pub nothing : Copied
nothing = record { out = []; reports = [] }

-- The bytes that a copy writes to the partial file, and what came of it.
abbrev pub store_copy :
    String
    → ℕ
    → Step
    → Copied × Option OsError
    → Disk
    → Disk × Result MoveError (ℕ × Option OsError)
store_copy p total s (c, o) d =
    (emit_all c.reports total (put p (regular (s.stored c.out)) d), ok (length c.out, o))

abbrev pub write_partial : String → ℕ → List Read → Op (ℕ × Option OsError)
write_partial p total reads d =
    let s = step_of d.steps in
    store_copy p total s (copy_with_context reads s.writes nothing) (pop d)
