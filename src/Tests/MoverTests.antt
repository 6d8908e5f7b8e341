-- ===== src/Tests/MoverTests.antt =====
-- Moves at concrete disks.
use telegram_uploader.Prelude.{
  true, ◌≢◌, eq_iff, ℕ, ◌==◌, false, List, [], ◌∷◌, none, some, String, str_eq, str_append,
  if◌then◌else◌, All, Result, ok, err, ◌≡◌, refl,
}
use telegram_uploader.Mover.Copy.{cross_device, Read, Write, copy_with_context, write_chunk}
use telegram_uploader.Mover.Exact.{Arrived, copy_with_context-Arrived}
use telegram_uploader.Mover.FileOps.{
  Node, absent, special, regular, Step, calm, Disk, MoveError, checksum_mismatch, nothing, ◌>>=◌,
}
use telegram_uploader.Mover.Rules.{calm-IsFaithful, IsFaithful}
use telegram_uploader.Mover.{move, copy_after_exdev, fill, finish, hash_file, destination_absent}
use telegram_uploader.Mover.Batch.{MoveRequest, preflight, move_items, move_batch, move_requests}
use telegram_uploader.Mover.Batched.{move_batch_keeps, move_requests_keeps}
use telegram_uploader.Mover.Moves.{Lossless, move-Lossless}

-- A digest that sees the first byte only.
abbrev digest : List ℕ → String
digest [] = ""
digest (b ∷ bs) = if b == 7 then "seven" else "other"

abbrev hidden : String → String
hidden p = str_append p ".partial"

abbrev files : String → Node
files p = if str_eq p "/v/clip.mp4" then regular (7 ∷ 8 ∷ 9 ∷ []) else absent

abbrev other_device : Step
other_device = record calm { fault = some cross_device }

abbrev corrupting : Step
corrupting = record calm { stored = λ bytes. 0 ∷ 0 ∷ 0 ∷ [] }

-- The rename fails, since the destination is on another device.
abbrev two_devices : Disk
two_devices = record {
  node = files;
  steps = calm ∷ calm ∷ calm ∷ calm ∷ other_device ∷ [];
  progress = [];
}

abbrev bad_medium : Disk
bad_medium = record two_devices {
  steps =
      calm ∷ calm ∷ calm ∷ calm ∷ other_device ∷ calm ∷ calm ∷ calm ∷ calm ∷ calm ∷ calm
      ∷ corrupting ∷ [];
}

abbrev outcome :
    Disk × Result MoveError (Unit {0}) → Node × Node × Node × Result MoveError (Unit {0})
outcome (d, r) = (d.node "/v/clip.mp4", d.node "/big/clip.mp4", d.node "/big/clip.mp4.partial", r)

moves_across_devices :
    outcome (move digest hidden "/v/clip.mp4" "/big/clip.mp4" two_devices)
    ≡ (absent, regular (7 ∷ 8 ∷ 9 ∷ []), absent, ok tt)
unfolding move copy_after_exdev fill finish hash_file destination_absent copy_with_context
    write_chunk ◌>>=◌
moves_across_devices = refl

detects_bad_medium :
    outcome (move digest hidden "/v/clip.mp4" "/big/clip.mp4" bad_medium)
    ≡ (regular (7 ∷ 8 ∷ 9 ∷ []), absent, absent, err checksum_mismatch)
unfolding move copy_after_exdev fill finish hash_file destination_absent copy_with_context
    write_chunk ◌>>=◌
detects_bad_medium = refl

abbrev faithful : IsFaithful calm
faithful = calm-IsFaithful digest ⊥

corrupting-IsFaithful : IsFaithful corrupting
corrupting-IsFaithful = calm-IsFaithful digest ⊥

bad_medium-IsFaithful : All IsFaithful bad_medium.steps
bad_medium-IsFaithful = (
  faithful,
  (
    faithful,
    (
      faithful,
      (
        faithful,
        (
          faithful,
          (
            faithful,
            (faithful, (faithful, (faithful, (faithful, (faithful, (corrupting-IsFaithful, tt)))))),
          ),
        ),
      ),
    ),
  ),
)

move-Lossless_example :
    Lossless digest hidden "/v/clip.mp4" "/big/clip.mp4" files
      (move digest hidden "/v/clip.mp4" "/big/clip.mp4" bad_medium)
move-Lossless_example =
    move-Lossless digest hidden "/v/clip.mp4" "/big/clip.mp4" bad_medium bad_medium-IsFaithful

abbrev pieces : List Read
pieces =
    record { done = false; chunk = 1 ∷ 2 ∷ []; error = none }
    ∷ record { done = false; chunk = 3 ∷ []; error = none }
    ∷ []

abbrev short_writes : List Write
short_writes = record { done = false; count = 1; error = none } ∷ []

copy_with_context-Arrived_example :
    Arrived []
      (1 ∷ 2 ∷ 3 ∷ [])
      (copy_with_context pieces short_writes nothing).0.out
      (copy_with_context pieces short_writes nothing).1
copy_with_context-Arrived_example = copy_with_context-Arrived pieces short_writes nothing

-- A folder with another file in it.
abbrev big : String → Node
big p =
    if str_eq p "/big"
    then special true
    else if str_eq p "/big/old.mp4"
    then regular (1 ∷ [])
    else files p

abbrev big_disk : Disk
big_disk = record two_devices { node = big; steps = [] }

abbrev into : String → String → String
into folder s = if str_eq s "/v/clip.mp4" then "/big/clip.mp4" else "/big/old.mp4"

moves_batch :
    outcome (move_batch digest hidden into ("/v/clip.mp4" ∷ []) "/big" big_disk)
    ≡ (absent, regular (7 ∷ 8 ∷ 9 ∷ []), absent, ok tt)
unfolding move_batch preflight move_items move destination_absent ◌>>=◌
moves_batch = refl

old_exists : big "/big/old.mp4" ≢ absent
old_exists e = cc e

abbrev old : String
old = "/big/old.mp4"

abbrev clip : String
clip = "/v/clip.mp4"

differ : old ≢ clip
differ e = cc ((eq_iff old clip).1 e)

move_batch_keeps_example :
    (move_batch digest hidden into ("/v/clip.mp4" ∷ []) "/big" big_disk).0.node "/big/old.mp4"
    ≡ regular (1 ∷ [])
move_batch_keeps_example =
    move_batch_keeps digest hidden into ("/v/clip.mp4" ∷ []) "/big" "/big/old.mp4" big_disk
      old_exists (differ, tt)

abbrev request : MoveRequest
request = record { source = "/v/clip.mp4"; destination = "/big/clip.mp4" }

move_requests_keeps_example :
    (move_requests digest hidden (request ∷ []) big_disk).0.node "/big/old.mp4" ≡ regular (1 ∷ [])
move_requests_keeps_example =
    move_requests_keeps digest hidden (request ∷ []) "/big/old.mp4" big_disk old_exists (differ, tt)
