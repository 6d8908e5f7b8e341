-- ===== src/Tests/RunTests.antt =====
-- Job actions and the upload goroutine at concrete inputs.
use telegram_uploader.Prelude.{
  List, [], ◌∷◌, none, some, true, get_elem?, ◌≡◌, refl, Option, ℕ, zero, suc,
}
use telegram_uploader.Prelude.Int.{pos}
use telegram_uploader.Model.{Job, Progress, uploading, sending, failed, sent}
use telegram_uploader.Store.{Contents}
use telegram_uploader.Queue.{find_job_index, index_of}
use telegram_uploader.World.{
  World, unwritten, persist, persist_loop, persist_candidate, save_candidate, save_contents,
  interfere, interfere_held,
}
use telegram_uploader.World.Honest.{IsHonest}
use telegram_uploader.Actions.Steps.{retries, perform, Acted}
use telegram_uploader.Actions.Acted.{perform-Acted}
use telegram_uploader.Attempt.{apply_progress_for_attempt, mark_sending, prepare_send_for_attempt}
use telegram_uploader.Attempt.Boundary.{Prepared, Restarts, prepare_send-Restarts}
use telegram_uploader.World.Rounds.{IsOnDisk}
use telegram_uploader.Attempt.Counters.{Advanced, apply_progress-Advanced}
use telegram_uploader.Pause.Intent.{IntentEnded, set_intent, set_intent-IntentEnded}
use telegram_uploader.Sections.{fails, section_step}
use telegram_uploader.Sections.Honest.{section-IsHonest}
use telegram_uploader.Tests.Samples.{sample, uploads, world}

abbrev three : List Job
three = sample "a" 0 uploading ∷ sample "b" 1 failed ∷ sample "c" 2 sent ∷ []

abbrev three_world : World
three_world = world (uploads "a" three) []

perform-Acted_example : Acted retries "b" three_world (perform retries "b" three_world)
perform-Acted_example = perform-Acted retries "b" three_world refl refl

allows_send : (prepare_send_for_attempt "a" 1 three_world).1 ≡ none
unfolding prepare_send_for_attempt mark_sending find_job_index index_of persist persist_loop
    persist_candidate save_candidate save_contents interfere interfere_held
allows_send = refl

-- The job is not yet in the state sending.
not_sending :
    (i : ℕ) (j : Job)
    → find_job_index three "a" ≡ some i
    → get_elem? three i ≡ some j
    → j.state ≡ sending
    → IsOnDisk three_world
unfolding find_job_index index_of
not_sending zero j f g s = absurd (cc (g, s))
not_sending (suc i) j f g s = absurd (cc f)

prepare_send-Restarts_example :
    Prepared "a" 1 three_world (prepare_send_for_attempt "a" 1 three_world).0
    × Restarts "a" three_world (prepare_send_for_attempt "a" 1 three_world).0
prepare_send-Restarts_example =
    prepare_send-Restarts "a" 1 three_world refl refl not_sending allows_send

abbrev same_file : Option Contents → Option Contents
same_file q = q

section-IsHonest_example : IsHonest (section_step (fails "a" "EOF") same_file (1 ∷ []))
section-IsHonest_example = section-IsHonest (fails "a" "EOF") same_file (1 ∷ [])

-- The save fails.
abbrev failing : World
failing = world (uploads "a" three) (unwritten "EIO" ∷ [])

set_intent-IntentEnded_example : IntentEnded true failing (set_intent true failing)
set_intent-IntentEnded_example = set_intent-IntentEnded true failing refl refl

abbrev sixty : Progress
sixty = record { bytes_done = pos 60; bytes_total = pos 100; bytes_per_second = 0; at = 1 }

apply_progress-Advanced_example :
    (k : Job) × (get_elem? (apply_progress_for_attempt "a" 1 sixty failing.ctl).jobs 0 ≡ some k)
    × Advanced "a" 1 failing.ctl (sample "a" 0 uploading) k
apply_progress-Advanced_example =
    apply_progress-Advanced "a" 1 sixty failing.ctl 0 (sample "a" 0 uploading) refl
