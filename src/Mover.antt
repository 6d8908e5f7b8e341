-- ===== src/Mover.antt =====
-- The move of a file (Move and copyAfterEXDEV of internal/mover/mover.go), in the order of the calls.
-- The digest and the path of the partial file are arguments, the errors of a deferred Close are
-- dropped as in the source.
pub mod Copy
pub mod Exact
pub mod FileOps
pub mod Rules
pub mod Changes
pub mod Kept
pub mod Outcome
pub mod Moves
pub mod Batch
pub mod Batched
use telegram_uploader.Prelude.{
  ℕ, ◌==◌, Bool, true, false, not, ◌||◌, List, [], Option, none, some, String, str_eq, length,
  Result, ok, err,
}
use telegram_uploader.Mover.Copy.{
  OsError, not_exist, exists, cross_device, Read, Copied, copy_with_context,
}
use telegram_uploader.Mover.FileOps.{
  Node, absent, special, regular, Disk, MoveError, destination_exists, checksum_mismatch,
  not_regular, empty_name, wrong_size, failed, joined, Op, then_run, ◌>>=◌, ◌>>◌, give, fail, guard,
  lift, or_fail, check_context, lstat, rename, open_file, create_partial, remove, sync_or_close,
  emit, nothing, write_partial,
}

abbrev pub absent_if : Result OsError Node → Op (Unit {0})
absent_if (ok n) = fail destination_exists
absent_if (err not_exist) = give tt
absent_if (err e) = fail (failed e)

unfoldable pub destination_absent : String → Op (Unit {0})
destination_absent p = do n ← lstat p; absent_if n

-- What an error of the exclusive creation or of the rename that installs a file means.
abbrev pub unless_exists : Result OsError (Unit {0}) → Op (Unit {0})
unless_exists (ok u) = give tt
unless_exists (err exists) = fail destination_exists
unless_exists (err e) = fail (failed e)

-- The deferred removal of a file that the move has created.
abbrev pub after_removal :
    {A : Type 0}
    → MoveError
    → Disk × Result MoveError (Result OsError (Unit {0}))
    → Disk × Result MoveError A
after_removal e (d, ok (ok u)) = (d, err e)
after_removal e (d, ok (err not_exist)) = (d, err e)
after_removal e (d, ok (err x)) = (d, err (joined e x))
after_removal e (d, err x) = (d, err e)

abbrev pub clean : {A : Type 0} → String → Disk × Result MoveError A → Disk × Result MoveError A
clean p (d, ok a) = (d, ok a)
clean p (d, err e) = after_removal e (remove p d)

abbrev pub cleanup_on_error : {A : Type 0} → String → Op A → Op A
cleanup_on_error p m d = clean p (m d)

abbrev pub file_size : Node → ℕ
file_size (regular bytes) = length bytes
file_size n = 0

abbrev pub is_regular : Node → Bool
is_regular (regular bytes) = true
is_regular n = false

-- The error of the copy comes first, then that of closing the file.
abbrev pub copy_ended : Option OsError → Result OsError (Unit {0}) → Op (Unit {0})
copy_ended (some e) closed = fail (failed e)
copy_ended none (ok u) = give tt
copy_ended none (err e) = fail (failed e)

module _ (sum : List ℕ → String) where
  abbrev pub hash_read : Copied × Option OsError → Op String
  hash_read (c, o) = do closed ← sync_or_close; copy_ended o closed; give (sum c.out)

  unfoldable pub hash_file : String → Op String
  hash_file p = do reads ← lift (open_file p); hash_read (copy_with_context reads [] nothing)

  abbrev pub same_digest : String → String → Op (Unit {0})
  same_digest a b = guard (str_eq a b) checksum_mismatch

  -- The partial file is filled, verified and renamed.
  unfoldable pub fill : String → String → String → ℕ → String → Op (Unit {0})
  fill source destination part total digest = do
    emit 0 total
    reads ← lift (open_file source)
    (copied, o) ← write_partial part total reads
    closed ← sync_or_close
    copy_ended o closed
    guard (copied == total) wrong_size
    check_context
    lift sync_or_close
    lift sync_or_close
    written ← hash_file part
    same_digest written digest
    destination_absent destination
    check_context
    renamed ← rename part destination
    unless_exists renamed

  -- The destination is verified again, then the source is removed.
  unfoldable pub finish : String → String → ℕ → String → Op (Unit {0})
  finish source destination total digest = do
    lift sync_or_close
    installed ← hash_file destination
    same_digest installed digest
    current ← hash_file source
    same_digest current digest
    check_context
    lift (remove source)
    emit total total

  module _ (partial_path : String → String) where
    unfoldable pub copy_after_exdev : String → String → ℕ → Op (Unit {0})
    copy_after_exdev source destination total = do
      check_context
      digest ← hash_file source
      created ← create_partial (partial_path destination)
      unless_exists created
      cleanup_on_error (partial_path destination)
          (fill source destination (partial_path destination) total digest)
      cleanup_on_error destination (finish source destination total digest)

    abbrev pub after_rename : String → String → ℕ → Result OsError (Unit {0}) → Op (Unit {0})
    after_rename source destination total (ok u) = emit total total
    after_rename source destination total (err exists) = fail destination_exists
    after_rename source destination total (err cross_device) = do
      destination_absent destination
      copy_after_exdev source destination total
    after_rename source destination total (err e) = fail (failed e)

    unfoldable pub move : String → String → Op (Unit {0})
    move source destination = do
      check_context
      guard (not (str_eq source "" || str_eq destination "")) empty_name
      info ← lift (lstat source)
      guard (is_regular info) not_regular
      destination_absent destination
      check_context
      renamed ← rename source destination
      after_rename source destination (file_size info) renamed
