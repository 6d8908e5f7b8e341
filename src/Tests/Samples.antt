-- ===== src/Tests/Samples.antt =====
-- Jobs, channels and system calls that the tests share.
use telegram_uploader.Controller.{Controller}
use telegram_uploader.World.{World, Interference, SaveOutcome}
use telegram_uploader.World.Honest.{IsHonest}
use telegram_uploader.Prelude.{true, refl, inr, ℕ, ◌+◌, false, List, [], ◌∷◌, none, some, String}
use telegram_uploader.Prelude.Int.{pos}
use telegram_uploader.Model.{Job, Channel, JobState, VideoMetadata}
use telegram_uploader.Fsutil.{Calls, other, Files}

abbrev pub no_metadata : VideoMetadata
no_metadata = record {
  duration_seconds = pos 0;
  width = pos 0;
  height = pos 0;
  supports_streaming = false;
  truncated_media_data = false;
}

-- A job of 100 bytes with half of them uploaded.
abbrev pub sample : String → ℕ → JobState → Job
sample id at s = record {
  id = id;
  position = pos at;
  path = id;
  name = "clip.mp4";
  size = pos 100;
  mod_time = 7;
  state = s;
  uploaded = pos 50;
  bytes_per_second = 0;
  random_id = pos (at + 1);
  message_id = pos 0;
  channel_id = pos 0;
  metadata = no_metadata;
  error = "";
  started_at = none;
  completed_at = none;
  move_destination = "";
}

abbrev pub videos : Channel
videos = record { id = pos 9; access_hash = pos 4; title = "videos" }

-- All calls succeed but the sync of the directory.
abbrev pub unsynced_calls : Calls
unsynced_calls = record {
  create_temp = none;
  chmod = none;
  write = none;
  sync = none;
  close = none;
  rename = none;
  remove = none;
  dir = record { windows = false; open_dir = none; sync = some (other "EIO"); close = none };
}

abbrev pub no_file : {A : Type 0} → Files A
no_file = record { target = none; temporary = false }

-- A controller that is not running.
abbrev pub idle : List Job → Controller
idle jobs = record {
  has_store = true;
  has_gateway = true;
  jobs = jobs;
  channel = videos;
  folder = "/v";
  queue_revision = 0;
  running = false;
  paused = false;
  pause_requested = false;
  pause_revision = 0;
  active_id = "";
  last_error = "";
  active_cancel = none;
  active_attempt = 0;
  attempt_revision = 0;
  all_cancel = none;
  run_done = none;
  cancel_job_id = "";
  cancel_all_requested = false;
  retry_wait_active = false;
  pending_removal = [];
  updates = none;
}

-- A controller that uploads the job `id` under the context 1.
abbrev pub uploads : String → List Job → Controller
uploads id jobs = record (idle jobs) {
  running = true;
  active_id = id;
  active_cancel = some 1;
  active_attempt = 1;
  attempt_revision = 1;
  all_cancel = some 2;
  run_done = some 0;
}

abbrev pub world : Controller → List SaveOutcome → World
world c saves = record {
  ctl = c;
  disk = none;
  saves = saves;
  env = [];
  op_held = false;
  cancelled = [];
  submitted = [];
}

-- The runner forgets its active job.
abbrev pub forget : Interference
forget = record { act = λ c. record c { active_id = "" }; store = λ q. q; cancels = [] }

pub forget-IsHonest : IsHonest forget
forget-IsHonest = record {
  revised = λ c e. record {
    jobs = refl;
    channel = refl;
    folder = refl;
    paused = refl;
    active = inr refl;
  };
  keeps_store = λ c. refl;
}

-- The runner ends the active job while an operation is under way.
abbrev pub busy_world : Controller → World
busy_world c = record (world c []) { env = forget ∷ [] }
