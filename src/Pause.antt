-- ===== src/Pause.antt =====
-- Pause and Resume (internal/app/pause.go).
pub mod Intent
use telegram_uploader.Prelude.{
  ℕ, ◌==◌, Bool, true, false, not, ◌&&◌, ◌||◌, Option, none, if◌then◌else◌, Result, ok, err,
}
use telegram_uploader.Controller.{Controller, Err, storage, next, notify}
use telegram_uploader.World.{
  World, Persisted, failed, interfere, persist, set_persistence_error, cancel, with_op,
}

-- opMu is taken only when the queue does not run; c.mu is free meanwhile.
abbrev pub unless_running :
    (World → World × Result Err (Unit {0})) → World → World × Result Err (Unit {0})
unless_running body w =
    if w.ctl.running then body w else with_op (λ u. body (interfere u)) (interfere w)

abbrev differs : Bool → Bool → Bool
differs a b = if a then not b else b

-- Whether Pause changes the state, and the new state.
unfoldable pub request_pause : Controller → Controller × Bool
request_pause c =
    let requested = c.running || c.pause_requested in
    let d = record c { paused = true; pause_requested = requested } in
    if not c.paused || differs c.pause_requested requested
    then (
      notify (record d {
        pause_revision = next c.pause_revision;
        queue_revision = next c.queue_revision;
      }),
      true,
    )
    else (d, false)

-- The context of a wait before a retry, which Pause cuts short.
abbrev pub waiting_context : Controller → Option ℕ
waiting_context c = if c.running && c.retry_wait_active then c.active_cancel else none

unfoldable pub request_resume : Controller → Controller × Bool
request_resume c = if not c.paused && not c.pause_requested then (c, false) else (
  notify (record c {
    paused = false;
    pause_requested = false;
    pause_revision = next c.pause_revision;
    queue_revision = next c.queue_revision;
  }),
  true,
)

-- The restoration after a failed save, if no newer intent was recorded.
unfoldable pub roll_back_pause : Bool → Bool → ℕ → Controller → Controller
roll_back_pause was_paused was_requested revision c =
    if c.pause_revision == revision
    then notify (record c {
      paused = was_paused;
      pause_requested = was_requested && c.running;
      pause_revision = next c.pause_revision;
    })
    else c

-- From the result of persist on; `before` is the controller before the change.
abbrev pub settle_pause :
    Controller → ℕ → Option ℕ → World × Persisted → World × Result Err (Unit {0})
settle_pause before revision k (w, failed t) =
    let u = interfere w in
    let v = record u {
      ctl = roll_back_pause before.paused before.pause_requested revision u.ctl;
    } in
    (set_persistence_error t (interfere v), err (storage t))
settle_pause before revision k (w, _) = (cancel k w, ok tt)

abbrev pub save_pause :
    Controller → Option ℕ → Controller × Bool → World → World × Result Err (Unit {0})
save_pause before k (c, true) w =
    settle_pause before c.pause_revision k (persist (interfere (record w { ctl = c })))
save_pause before k (c, false) w = (record w { ctl = c }, ok tt)

unfoldable pub pause : World → World × Result Err (Unit {0})
pause w = unless_running (λ u. save_pause u.ctl (waiting_context u.ctl) (request_pause u.ctl) u) w

unfoldable pub resume : World → World × Result Err (Unit {0})
resume w = unless_running (λ u. save_pause u.ctl none (request_resume u.ctl) u) w

unfoldable pub queue_paused : Controller → Bool
queue_paused c = c.paused || c.pause_requested
