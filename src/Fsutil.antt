-- ===== src/Fsutil.antt =====
-- internal/fsutil/fsutil.go: the durable replacement of one file. Every call into the operating
-- system is an entry of `Calls`, `none` where the call succeeds and `some` with its error where it
-- fails; the state is the target file and whether the temporary file stands beside it.
pub mod Replace
use telegram_uploader.Prelude.{
  Bool, true, false, ◌||◌, not, ◌&&◌, Option, none, some, String, if◌then◌else◌,
}

-- The error of a system call, by what `errors.Is` can find in it.
pub data Errno : Type 0 where
  einval enotsup enosys unsupported : Errno
  other : String → Errno

-- What SyncDir meets: runtime.GOOS, os.Open, Sync and Close of the directory.
pub record DirCalls : Type 0 where
  pub windows : Bool
  pub open_dir : Option Errno
  pub sync : Option Errno
  pub close : Option Errno

-- errors.Is(err, syscall.EINVAL) || ENOTSUP || ENOSYS || errors.ErrUnsupported
unfoldable pub dir_sync_unsupported : Errno → Bool
dir_sync_unsupported einval = true
dir_sync_unsupported enotsup = true
dir_sync_unsupported enosys = true
dir_sync_unsupported unsupported = true
dir_sync_unsupported (other t) = false

-- if syncErr != nil && !dirSyncUnsupported(syncErr) { return syncErr }; return closeErr
abbrev pub sync_result : Option Errno → Option Errno → Option Errno
sync_result none closed = closed
sync_result (some e) closed = if not (dir_sync_unsupported e) then some e else closed

unfoldable pub sync_dir : DirCalls → Option Errno
unfolding dir_sync_unsupported
sync_dir c =
    if c.windows
    then none
    else elim c.open_dir [ some e ↦ some e | none ↦ sync_result c.sync c.close ]

pub record Calls : Type 0 where
  pub create_temp : Option String
  pub chmod : Option String
  pub write : Option String
  pub sync : Option String
  pub close : Option String
  pub rename : Option String
  pub remove : Option String
  pub dir : DirCalls

pub data WriteError : Type 0 where
  create_temporary set_permissions write_temporary sync_temporary close_temporary replace_file :
      String → WriteError
  sync_directory : Errno → WriteError

-- `target` is the content under the path, `none` where there is no file.
pub record Files (A : Type 0) : Type 0 where
  pub target : Option A
  pub temporary : Bool

module _ {A : Type 0} where
  -- The deferred clean-up of a path on which the rename was not done. Its error is dropped.
  abbrev pub discard : Calls → Files A → Files A
  discard c f = elim c.remove [ none ↦ record f { temporary = false } | some e ↦ f ]

  -- From the rename on: `committed` is set, so the deferred function removes nothing.
  abbrev pub install : Calls → A → Files A → Files A × Option WriteError
  install c data' f = elim c.rename [
    | some e ↦ (discard c f, some (replace_file e))
    | none ↦ (
      record f { target = some data'; temporary = false },
      elim (sync_dir c.dir) [ some e ↦ some (sync_directory e) | none ↦ none ],
    )
  ]

  unfoldable pub atomic_write_file : Calls → A → Files A → Files A × Option WriteError
  unfolding sync_dir
  atomic_write_file c data' f = elim c.create_temp [
    | some e ↦ (f, some (create_temporary e))
    | none ↦
        let g = record f { temporary = true } in
        elim c.chmod [
          | some e ↦ (discard c g, some (set_permissions e))
          | none ↦ elim c.write [
            | some e ↦ (discard c g, some (write_temporary e))
            | none ↦ elim c.sync [
              | some e ↦ (discard c g, some (sync_temporary e))
              | none ↦ elim c.close [
                | some e ↦ (discard c g, some (close_temporary e))
                | none ↦ install c data' g
              ]
            ]
          ]
        ]
  ]
