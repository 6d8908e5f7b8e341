-- ===== src/Tests/EditTests.antt =====
-- Removals and resets at concrete inputs.
use mathlib.Core.List.{Memᴰ}
use telegram_uploader.Prelude.{List, [], ◌∷◌, none, ◌≡◌, refl, ok, ◌≢◌, ◌⊎◌}
use telegram_uploader.Model.{Job, uploading, failed, sent}
use telegram_uploader.Queue.{filtered_jobs, is_removable}
use telegram_uploader.Queue.Filter.{Filtered, filtered_jobs-Filtered, unplaced}
use telegram_uploader.World.Honest.{settled}
use telegram_uploader.World.Reached.{Reached}
use telegram_uploader.World.Rounds.{IsOnDisk, persist-IsOnDisk, persist-ne-changed}
use telegram_uploader.World.{
  World, persist, persist_loop, persist_candidate, save_candidate, interfere, interfere_held,
  publish, changed,
}
use telegram_uploader.Edit.{edit, edit_loop, Removal, remove_decision, commit_removal_candidate}
use telegram_uploader.Edit.Protocol.{Ran, edit-Ran}
use telegram_uploader.Edit.Remove.{cores}
use telegram_uploader.Edit.InFlight.{IsInFlight, in_flight-kept}
use telegram_uploader.Tests.Samples.{sample, uploads, busy_world, forget-IsHonest}

abbrev three : List Job
three = sample "a" 0 uploading ∷ sample "b" 1 failed ∷ sample "c" 2 sent ∷ []

abbrev three_world : World
three_world = busy_world (uploads "a" three)

filtered_jobs-Filtered_example :
    Filtered (λ j. is_removable j.state) three (filtered_jobs three (λ j. is_removable j.state))
filtered_jobs-Filtered_example = filtered_jobs-Filtered (λ j. is_removable j.state) three

persist-ne-changed_example : (persist three_world).1 ≢ changed
persist-ne-changed_example = persist-ne-changed three_world

persist-IsOnDisk_example : IsOnDisk (persist three_world).0
unfolding persist persist_loop persist_candidate save_candidate interfere interfere_held
persist-IsOnDisk_example = persist-IsOnDisk three_world (forget-IsHonest, tt) refl refl

edit-Ran_example : Ran (remove_decision none) three_world (edit (remove_decision none) three_world)
edit-Ran_example = edit-Ran (remove_decision none) three_world (forget-IsHonest, tt) refl

abbrev two_removed : Removal
two_removed = record { removed = 2; pending_removal_ids = [] }

-- The runner gives up its job in between, so the removal of the two others marks nothing.
clears_two : (edit (remove_decision none) three_world).1 ≡ ok two_removed
unfolding edit edit_loop remove_decision filtered_jobs persist_candidate save_candidate interfere
    interfere_held commit_removal_candidate is_removable publish
clears_two = refl

in_flight-kept_example :
    (u : World) × Reached three_world u
    × ((j : Job)
        → Memᴰ j u.ctl.jobs
        → IsInFlight j.state ⊎ ((j.id ≡ u.ctl.active_id) × (u.ctl.active_id ≢ ""))
        → Memᴰ (settled (unplaced j)) (cores (edit (remove_decision none) three_world).0.ctl.jobs))
in_flight-kept_example =
    in_flight-kept none three_world (forget-IsHonest, tt) refl two_removed clears_two
