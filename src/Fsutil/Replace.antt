-- ===== src/Fsutil/Replace.antt =====
-- The file under the path after AtomicWriteFile of internal/fsutil/fsutil.go, on every branch.
use telegram_uploader.Prelude.{false, Option, none, some, ◌≡◌, arith}
use telegram_uploader.Fsutil.{Calls, Files, WriteError, sync_directory, atomic_write_file}

-- What a caller may conclude from the returned error: success installs the data; an error of the
-- directory sync comes with the data installed too; every other error leaves the old content.
abbrev pub Outcome : {A : Type 0} → A → Files A → Files A × Option WriteError → Type 0
Outcome new old (f, none) = f.target ≡ some new
Outcome new old (f, some (sync_directory e)) = f.target ≡ some new
Outcome new old (f, some e) = f.target ≡ old.target

module _ {A : Type 0} where
  -- Whatever the system calls return, the target holds the old content or the new one, and the
  -- error tells which: the new content without an error or with a directory-sync error, else the
  -- old content.
  pub atomic_write_file-Outcome :
      (c : Calls) (new : A) (f : Files A) → Outcome new f (atomic_write_file c new f)
  unfolding atomic_write_file
  atomic_write_file-Outcome c new f = ground arith

  -- If removing the temporary file works when it is tried, none is left behind on any path.
  pub no_temporary_left :
      (c : Calls) (new : A) (f : Files A)
      → f.temporary ≡ false
      → c.remove ≡ none
      → (atomic_write_file c new f).0.temporary ≡ false
  unfolding atomic_write_file
  no_temporary_left c new f t r = ground arith
