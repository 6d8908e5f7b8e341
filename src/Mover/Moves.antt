-- ===== src/Mover/Moves.antt =====
-- What Move (internal/mover/mover.go) promises: nothing is overwritten and nothing is lost.
use telegram_uploader.Prelude.{ℕ, List, String, Result, ok, err, ◌≡◌, ◌≢◌, ◌⊎◌, refl, All}
use telegram_uploader.Mover.FileOps.{Node, absent, regular, Disk, MoveError}
use telegram_uploader.Mover.Rules.{Ends, At, IsFaithful}
use telegram_uploader.Mover.Kept.{Moved, Safe}
use telegram_uploader.Mover.Outcome.{move-Runs}
use telegram_uploader.Mover.{move}

module _ (part source destination : String) (start : String → Node) where
  -- After a move the source is gone, the destination, which did not exist, is a regular file, and
  -- every other file is as it was. After a move that failed every file is as it was, the source
  -- included, and only the partial file or the destination may be left behind, where there was none.
  abbrev pub Undisturbed : Disk × Result MoveError (Unit {0}) → Type 0
  Undisturbed (d, ok u) =
      ((x : String) → x ≢ source → x ≢ destination → d.node x ≡ start x)
      × (d.node source ≡ absent)
      × (start destination ≡ absent)
      × ((b : List ℕ) × (c : List ℕ) × (start source ≡ regular b)
          × (d.node destination ≡ regular c))
  Undisturbed (d, err e) =
      (x : String) → (d.node x ≡ start x) ⊎ ((start x ≡ absent) × ((x ≡ part) ⊎ (x ≡ destination)))

  -- After a move the bytes at the destination have the digest of the source's bytes.
  abbrev pub SameDigest : (List ℕ → String) → Disk × Result MoveError (Unit {0}) → Type 0
  SameDigest sum (d, ok u) =
      (b : List ℕ) × (c : List ℕ) × (start source ≡ regular b)
      × (d.node destination ≡ regular c)
      × (sum c ≡ sum b)
  SameDigest sum (d, err e) = Unit

module _ (sum : List ℕ → String) (partial_path : String → String)
    (source destination : String) where
  Ends-Undisturbed :
      (start : String → Node) (x : Disk × Result MoveError (Unit {0}))
      → Ends
          (λ a. At sum ⊥ (Moved sum ⊥ partial_path start source destination))
          (λ d. Safe sum ⊥ partial_path start source destination d.node)
          x
      → Undisturbed (partial_path destination) source destination start x
  Ends-Undisturbed start (d, ok u) h = let c = h.0.3 in (h.0.0, h.0.1, h.0.2, (c.0, c.1, c.2, c.3))
  Ends-Undisturbed start (d, err e) h = h

  -- Which files a move touches, whatever the medium stores and whatever is read.
  pub move-Undisturbed :
      (d : Disk)
      → Undisturbed
          (partial_path destination)
          source
          destination
          d.node
          (move sum partial_path source destination d)
  move-Undisturbed d =
      Ends-Undisturbed d.node (move sum partial_path source destination d)
        (move-Runs sum ⊥ partial_path d.node source destination d (λ x. refl, λ f. absurd f))

  Ends-SameDigest :
      (start : String → Node) (F : Type 0) (f : F) (x : Disk × Result MoveError (Unit {0}))
      → Ends
          (λ a. At sum F (Moved sum F partial_path start source destination))
          (λ d. Safe sum F partial_path start source destination d.node)
          x
      → SameDigest (partial_path destination) source destination start sum x
  Ends-SameDigest start F f (d, ok u) h = let c = h.0.3 in (c.0, c.1, c.2, c.3, c.4 f)
  Ends-SameDigest start F f (d, err e) h = tt

  pub move-SameDigest :
      (d : Disk)
      → All IsFaithful d.steps
      → SameDigest
          (partial_path destination)
          source
          destination
          d.node
          sum
          (move sum partial_path source destination d)
  move-SameDigest d h =
      Ends-SameDigest d.node (All IsFaithful d.steps) h (move sum partial_path source destination d)
        (move-Runs sum (All IsFaithful d.steps) partial_path d.node source destination d
          (λ x. refl, λ f. f))

  -- What is left of every file after a move, the moved one by the digest of its bytes.
  abbrev pub Lossless : (String → Node) → Disk × Result MoveError (Unit {0}) → Type 0
  Lossless start x =
      Undisturbed (partial_path destination) source destination start x
      × SameDigest (partial_path destination) source destination start sum x

  -- Move neither overwrites nor loses a file, whichever calls fail, however reads and writes are cut
  -- up and whatever the medium stores of the bytes written, while nobody else changes the disk and
  -- reads that end without an error give the bytes that are stored. Where it succeeds the source is
  -- gone, the destination did not exist and is now a regular file whose bytes have the digest of the
  -- source's bytes, and all other files are as they were; where it fails all files are as they were,
  -- the source included, and only the partial file or the destination may be left behind, if it did
  -- not exist before.
  pub move-Lossless :
      (d : Disk)
      → All IsFaithful d.steps
      → Lossless d.node (move sum partial_path source destination d)
  move-Lossless d h = (move-Undisturbed d, move-SameDigest d h)
