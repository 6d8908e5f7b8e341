-- ===== src/Edit/InFlight.antt =====
-- A removal (RemoveJobs, ClearQueue of internal/app/queue_edit.go) and the jobs in flight.
use mathlib.Core.List.{Memᴰ}
use telegram_uploader.Prelude.{
  Bool, true, false, List, [], ◌∷◌, Option, String, ◌≡◌, refl, ◌≢◌, arith, Bool-cases, inl, inr, ap,
  ok, ◌⊎◌, eq_iff,
}
use telegram_uploader.Model.{Job, JobState, uploading, sending, confirming, moving}
use telegram_uploader.Queue.{is_removable}
use telegram_uploader.Queue.Filter.{unplaced, without}
use telegram_uploader.Controller.{Controller}
use telegram_uploader.World.Honest.{IsHonestWorld, settled}
use telegram_uploader.World.Reached.{Reached}
use telegram_uploader.World.{World}
use telegram_uploader.Edit.Remove.{cores, RemovedFrom, remove-RemovedFrom}
use telegram_uploader.Edit.{edit, Removal, removes, remove_decision}

-- The states of a job that is in the hands of Telegram or of a file move.
pub data IsInFlight : JobState → Type 0 where
  uploads : IsInFlight uploading
  sends : IsInFlight sending
  confirms : IsInFlight confirming
  moves : IsInFlight moving

IsInFlight-not_removable : {s : JobState} → IsInFlight s → is_removable s ≡ false
unfolding is_removable
IsInFlight-not_removable uploads = refl
IsInFlight-not_removable sends = refl
IsInFlight-not_removable confirms = refl
IsInFlight-not_removable moves = refl

mem-without :
    (remove : Job → Bool) (js : List Job) {j : Job}
    → Memᴰ j js
    → remove j ≡ false
    → Memᴰ j (without remove js)
mem-without remove [] {j} m k = elim m [ ]
mem-without remove (x ∷ js) {j} (Memᴰ.head e) k = rw (rw e at k) (Memᴰ.head e)
mem-without remove (x ∷ js) {j} (Memᴰ.tail m) k = elim (Bool-cases (remove x)) [
  | inl gone ↦ rw gone (mem-without remove js m k)
  | inr kept ↦ rw kept (Memᴰ.tail (mem-without remove js m k))
]

mem-cores : (js : List Job) {j : Job} → Memᴰ j js → Memᴰ (settled (unplaced j)) (cores js)
mem-cores [] m = elim m [ ]
mem-cores (x ∷ js) (Memᴰ.head e) = Memᴰ.head (ap (λ k. settled (unplaced k)) e)
mem-cores (x ∷ js) (Memᴰ.tail m) = Memᴰ.tail (mem-cores js m)

not-removes :
    (selected : Option (List String)) (d e : Controller) (r : Removal)
    (v : RemovedFrom selected d e r) (j : Job)
    → IsInFlight j.state ⊎ ((j.id ≡ d.active_id) × (d.active_id ≢ ""))
    → removes selected v.active j ≡ false
not-removes selected d e r v j (inl f) = ground (arith, IsInFlight-not_removable f)
not-removes selected d e r v j (inr a) = ground (arith, eq_iff j.id v.active)

-- A RemoveJobs (`some ids`) or ClearQueue (`none`) that succeeds loses no job that is being uploaded,
-- sent, confirmed or moved, nor the active job, of a state that it met: each is still there
-- afterwards, unchanged but for position and byte counters. Others change durable state only with the
-- revision, and the store is not nil.
pub in_flight-kept :
    (selected : Option (List String)) (w : World)
    → IsHonestWorld w
    → w.ctl.has_store ≡ true
    → (r : Removal) → (edit (remove_decision selected) w).1 ≡ ok r
    → (u : World) × Reached w u
      × ((j : Job)
          → Memᴰ j u.ctl.jobs
          → IsInFlight j.state ⊎ ((j.id ≡ u.ctl.active_id) × (u.ctl.active_id ≢ ""))
          → Memᴰ (settled (unplaced j)) (cores (edit (remove_decision selected) w).0.ctl.jobs))
in_flight-kept selected w h s r q =
    let (u, reached, v) = remove-RemovedFrom selected w h s r q in
    (
      u,
      reached,
      λ j m why.
          rw v.jobs
            (mem-cores _ (mem-without _ u.ctl.jobs m (not-removes selected u.ctl _ r v j why))),
    )
