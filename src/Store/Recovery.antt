-- ===== src/Store/Recovery.antt =====
-- What `Save` followed by a crash and `Load` gives back (internal/queue/store.go).
use telegram_uploader.Prelude.{
  Bool, false, List, map, Option, none, some, String, ◌≡◌, refl, str_eq, Result, ok, err, arith,
  ◌≢◌, ◌⊎◌,
}
use telegram_uploader.Prelude.Int.{pos}
use telegram_uploader.Model.{Job, Channel, uploading, sending, confirming, interrupted}
use telegram_uploader.Fsutil.{Files, Calls, WriteError, sync_directory, atomic_write_file}
use telegram_uploader.Fsutil.Replace.{Outcome, atomic_write_file-Outcome}
use telegram_uploader.Store.{
  Json, Document, wrapped, Contents, StoreError, save, load, recover, accept, as_loaded,
  without_speed, interrupted_while_sending, current_schema_version, write_failed,
}

-- What a job may look like after a start of the program.
pub record IsRecovered (before after : Job) : Type 0 where
  pub not_uploading : after.state ≢ uploading
  pub not_sending : after.state ≢ sending
  pub same_id : after.id ≡ before.id
  pub same_random_id : after.random_id ≡ before.random_id
  pub same_path : after.path ≡ before.path
  pub restartable :
      before.state ≡ uploading → (after.state ≡ interrupted) × (after.uploaded ≡ pos 0)
  pub held_back :
      (before.state ≡ sending) ⊎ (before.state ≡ confirming)
      → (after.state ≡ confirming) × (after.error ≡ interrupted_while_sending)

-- A job is never taken up in a transfer state; an upload restarts from zero bytes, and a job whose
-- message may have been sent waits for the user. Identity, random id and path are kept.
pub recover-IsRecovered : (j : Job) → IsRecovered j (recover j)
unfolding recover
recover-IsRecovered j = ground arith

-- What a start of the program finds, by the error that `Save` returned: `now` is what it loads
-- after the save, `old` what it loaded before and `new` the saved queue.
abbrev pub AfterSave :
    Option StoreError
    → Result StoreError Contents
    → Result StoreError Contents
    → Result StoreError Contents
    → Type 0
AfterSave none now old new = now ≡ new
AfterSave (some (write_failed (sync_directory e))) now old new = now ≡ new
AfterSave (some e) now old new = now ≡ old

module _ (json : Json) where
  -- The queue that a start of the program finds after `jobs` were saved.
  abbrev pub reloaded : List Job → Channel → Bool → Contents
  reloaded jobs channel paused = record {
    jobs = map recover (map without_speed jobs);
    channel = channel;
    paused = paused;
  }

  accept-as_loaded :
      (jobs : List Job) (channel : Channel) (paused : Bool)
      → accept json (
          as_loaded (record {
            schema_version = current_schema_version;
            jobs = jobs;
            channel = channel;
            paused = paused;
          }))
        ≡ ok (reloaded jobs channel paused)
  unfolding accept
  accept-as_loaded jobs channel paused = refl

  abbrev new_document : List Job → Channel → Bool → Document
  new_document jobs channel paused = record {
    schema_version = current_schema_version;
    jobs = jobs;
    channel = channel;
    paused = paused;
  }

  load_same :
      (path : String) (f g : Files json.Bytes)
      → g.target ≡ f.target
      → load json path none g ≡ load json path none f
  unfolding load
  load_same path f g e = rw e

  load_new :
      (path : String) (g : Files json.Bytes) (jobs : List Job) (channel : Channel) (paused : Bool)
      (b : json.Bytes)
      → str_eq path "" ≡ false
      → g.target ≡ some b
      → json.unmarshal b ≡ ok (as_loaded (new_document jobs channel paused))
      → load json path none g ≡ ok (reloaded jobs channel paused)
  unfolding load
  load_new path g jobs channel paused b n t u =
      rw n (rw t (rw u (accept-as_loaded jobs channel paused)))

  -- From the outcome of the file replacement to what is loaded.
  after_write :
      (path : String) (jobs : List Job) (channel : Channel) (paused : Bool) (b : json.Bytes)
      (f g : Files json.Bytes) (failure : Option WriteError)
      → str_eq path "" ≡ false
      → json.unmarshal b ≡ ok (as_loaded (new_document jobs channel paused))
      → Outcome b f (g, failure)
      → AfterSave
          (wrapped failure)
          (load json path none g)
          (load json path none f)
          (ok (reloaded jobs channel paused))
  after_write path jobs channel paused b f g none n u t =
      load_new path g jobs channel paused b n t u
  after_write path jobs channel paused b f g (some (sync_directory e)) n u t =
      load_new path g jobs channel paused b n t u
  after_write path jobs channel paused b f g (some _) n u t = load_same path f g t

  module _ (path : String) (named : str_eq path "" ≡ false) where
    after_marshal :
        (calls : Calls) (jobs : List Job) (channel : Channel) (paused : Bool) (f : Files json.Bytes)
        (m : Result String json.Bytes)
        → json.marshal (new_document jobs channel paused) ≡ m
        → let (g, failure) = save json path calls jobs channel paused f in
          AfterSave failure
            (load json path none g)
            (load json path none f)
            (ok (reloaded jobs channel paused))
    unfolding save
    after_marshal calls jobs channel paused f (err e) h = rw (named, h) refl
    after_marshal calls jobs channel paused f (ok b) h =
        rw (named, h)
          (after_write path jobs channel paused b f (atomic_write_file calls b f).0
            (atomic_write_file calls b f).1 named (json.unmarshal_marshal _ b h)
            (atomic_write_file-Outcome calls b f))

    -- The file after a `Save` loads as the saved queue, recovered, when the save succeeded or only
    -- the directory sync failed; after any other error it loads as it did before the save. The path
    -- of the store is not empty.
    pub load-save :
        (calls : Calls) (jobs : List Job) (channel : Channel) (paused : Bool) (f : Files json.Bytes)
        → let (g, failure) = save json path calls jobs channel paused f in
          AfterSave failure
            (load json path none g)
            (load json path none f)
            (ok (reloaded jobs channel paused))
    load-save calls jobs channel paused f = after_marshal calls jobs channel paused f _ refl
