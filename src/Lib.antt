-- ===== src/Lib.antt =====
-- A model of the Telegram video uploader: the durable upload queue, its editing, and the goroutine
-- that uploads it.
--
-- The program keeps a list of jobs (internal/model/job.go) in a controller (internal/app) that a
-- GUI and one upload goroutine share under a mutex c.mu. The list is saved to queue.json
-- (internal/queue/store.go) by replacing the file (internal/fsutil/fsutil.go) under a second mutex
-- persistMu. By its own rule a durable change counts queueRevision up, and whoever works on a
-- snapshot compares revisions before it publishes.
--
-- Files and the code they model:
--   Prelude          shared names: native numbers, lists, results, signed integers
--   Model            internal/model/job.go: Job, JobState, VideoMetadata, Progress, Channel
--   Fsutil           internal/fsutil/fsutil.go: AtomicWriteFile, SyncDir
--   Store            internal/queue/store.go: Save, Load and the recovery of interrupted jobs
--   Queue            internal/app/queue_edit.go: the functions on job lists
--   Snapshot         internal/app/controller.go: Snapshot, snapshotLocked, jobProgressBytes
--   Controller       internal/app/controller.go: Controller, notifyLocked, the errors
--   World            internal/app/controller.go and queue_edit.go: persist, persistCandidate,
--                    setPersistenceError, commitCandidate, opMu
--   Edit             internal/app/queue_edit.go: RemoveJobs, ClearQueue, RemoveCompleted, ResetJobs,
--                    ApplyUploadLimit, SetChannel, Scan
--   Append           internal/app/queue_edit.go: AddJobs
--   Actions          internal/app/job_actions.go: CancelJob, CancelAll, Retry, Skip, MarkSent
--   Pause            internal/app/pause.go: Pause, Resume
--   Load             internal/app/controller.go: Load and reconcileMovingJobs
--   Runner, Run      internal/app/runner.go: critical sections, and Start and runQueue made of them
--   Attempt, Retry   internal/app/runner.go and retry.go: what one attempt does, and attempts in a
--                    row (Retry/Attempts)
--   Telegram         internal/telegram/upload.go and client.go: UploadVideo, validateChannel and
--                    the binding of a channel; Retry/Once puts UploadVideo in the place of the gateway
--   Mover            internal/mover/mover.go: Move, MoveBatch, MoveRequests and the copy between
--                    devices
--   Scanner          internal/scanner/scanner.go: Scan, newIDs, compareNatural and its key
--   Settings         internal/app/settings.go: LoadSettings, SaveSettings, normalizeSettings
--   Scheduler        internal/ui/scheduler.go: scheduleCoordinator
--   Sections         the critical sections of all these as steps of another goroutine
--   Tests            the theorems at concrete inputs
-- The children of a module hold its theorems.
--
-- Concurrency. A `World` is the controller with the queue file, the outcomes of the coming saves,
-- the contexts that were cancelled, and the list `env` of what other goroutines do. Each time the
-- code releases c.mu the next entry of `env` acts on the controller and the file; while persistMu is
-- held it acts on the controller only. With an empty list nobody else acts. A theorem on
-- interleavings asks that the entries be honest: a durable change comes with a new revision.
--
-- Fuel. persist and the editing loops repeat a round only when another goroutine has changed the
-- revision meanwhile, so one round more than `env` has entries is enough; so it is for
-- removeAfterTerminalPersist. The rounds of runQueue have no bound in the code, since a user may
-- requeue jobs for ever: `run_loop` takes the number of rounds as an argument. The retries of an
-- upload are recursion on the list of delays.
--
-- Representation. An int64 is a signed integer, wrapped where the code adds; the revisions are
-- counted modulo 2 ^ 64. A float64 is the number of its bits, since the code modelled only copies
-- and clears it. A Go map used as a set is the list of its keys. Contexts and channels are numbers.
--
-- Disks and timers. A move acts on a disk that nobody else changes; each call consumes a step of a
-- script that may fail it, cut its reads and writes up, or store other bytes. The function of a timer
-- may run at any moment after it was started, also after the timer was stopped. The part of a
-- scheduler operation that holds its lock is one step, and the callback that it took is invoked in a
-- later one. The tasks that bind a channel go on part by part, in any order; a task decides under the
-- lock and sends its event in a later part. The loops of the mover are recursion on the script and on
-- lists, and that of compareNatural is on fuel, for which the length of the first name is enough.
--
-- Not modelled: the GUI (internal/ui) but for its scheduler, the connection and request lifecycle of
-- the Telegram client, the moving of oversize jobs (internal/app/move.go), the MP4 reader, the
-- credentials, the diagnostics and the platform files. The JSON codec, the system calls,
-- the calls of the protocol library, the checks of a file before its upload, the timer and the clock
-- are arguments. The speed and remaining time of a snapshot are floating-point and left out, as is
-- the stream of progress updates.
pub mod Prelude
pub mod Model
pub mod Fsutil
pub mod Store
pub mod Queue
pub mod Snapshot
pub mod Controller
pub mod World
pub mod Edit
pub mod Append
pub mod Actions
pub mod Pause
pub mod Load
pub mod Runner
pub mod Run
pub mod Attempt
pub mod Retry
pub mod Sections
pub mod Telegram
pub mod Mover
pub mod Scheduler
pub mod Scanner
pub mod Settings
pub mod Tests
