-- ===== src/Tests/ScannerTests.antt =====
-- Scans of concrete folders.
use telegram_uploader.Prelude.{
  ℕ, ◌+◌, leb, Bool, true, false, ◌&&◌, List, [], ◌∷◌, some, String, str_eq, if◌then◌else◌, Result,
  ok, err, map, ◌≡◌, refl, ap, arith,
}
use mathlib.Core.List.{Perm}
use mathlib.Core.List.Perm
use telegram_uploader.Prelude.Int.{pos}
use telegram_uploader.Model.{Job, JobState, queued, oversize}
use telegram_uploader.Scanner.Natural.{
  Name, Compared, less, same, greater, decided, compare_natural, compare_runes, compare_lists,
  compare_digit_runs, compare_digits, digit_run, after_run, from_first_non_zero,
}
use telegram_uploader.Scanner.Key.{KeepsDigits, natural_key, compare_natural-key}
use telegram_uploader.Scanner.Order.{IsOrder, flip, compare_natural-IsOrder}
use telegram_uploader.Scanner.Scan.{
  Info, Inspected, found, vanished, FileEntry, Surroundings, is_less, sorts_before, scan,
  list_files, make_jobs, new_ids, random_id_of, big_endian, mark_uuid,
}
use telegram_uploader.Scanner.Jobs.{Ordered, Scanned, scan-Scanned}

abbrev lower : ℕ → ℕ
lower r = if leb 65 r && leb r 90 then r + 32 else r

lower-KeepsDigits : KeepsDigits lower
lower-KeepsDigits = record { digit = λ r h. ground arith; other = λ r h. ground arith }

-- "v2", "v10" and "V02".
abbrev v2 : Name
v2 = record { bytes = 118 ∷ 50 ∷ []; runes = 118 ∷ 50 ∷ [] }

abbrev v10 : Name
v10 = record { bytes = 118 ∷ 49 ∷ 48 ∷ []; runes = 118 ∷ 49 ∷ 48 ∷ [] }

abbrev v02 : Name
v02 = record { bytes = 86 ∷ 48 ∷ 50 ∷ []; runes = 86 ∷ 48 ∷ 50 ∷ [] }

compares :
    compare_natural lower v2 v10 ∷ compare_natural lower v02 v10 ∷ compare_natural lower v02 v2 ∷ []
    ≡ less ∷ less ∷ greater ∷ []
unfolding compare_natural compare_runes compare_lists compare_digit_runs compare_digits digit_run
    after_run from_first_non_zero
compares = refl

compare_natural-key_example :
    compare_natural lower v2 v10
    ≡ decided
        (compare_lists (natural_key lower v2) (natural_key lower v10))
        (compare_lists (118 ∷ 50 ∷ []) (118 ∷ 49 ∷ 48 ∷ []))
compare_natural-key_example = compare_natural-key lower lower-KeepsDigits v2 v10

compare_natural-IsOrder_example : IsOrder (compare_natural lower) (λ (a : Name). a.bytes)
compare_natural-IsOrder_example = compare_natural-IsOrder lower lower-KeepsDigits

-- A sort by insertion.
place : {A : Type 0} → Bool → A → A → List A → List A → List A
place true x y ys rest = y ∷ rest
place false x y ys rest = x ∷ y ∷ ys

insert : {A : Type 0} → (A → A → Bool) → A → List A → List A
insert before x [] = x ∷ []
insert before x (y ∷ ys) = let rest = insert before x ys in place (before y x) x y ys rest

insertion_sort : {A : Type 0} → (A → A → Bool) → List A → List A
insertion_sort before [] = []
insertion_sort before (x ∷ xs) = insert before x (insertion_sort before xs)

module _ {A : Type 0} (before : A → A → Bool)
    (asym : (a b : A) → before a b ≡ true → before b a ≡ false) where
  abbrev InOrder : List A → Type 0
  InOrder = Ordered (λ a b. before b a ≡ false)

  -- Where the first element goes before the new one, it stays the first.
  first-InOrder :
      (b : Bool) (x y z : A) (zs rest : List A)
      → before y x ≡ true
      → InOrder (y ∷ z ∷ zs)
      → InOrder (place b x z zs rest)
      → InOrder (y ∷ place b x z zs rest)
  unfolding place
  first-InOrder true x y z zs rest h o i = (o.0, i)
  first-InOrder false x y z zs rest h o i = (asym y x h, i)

  after_first-InOrder :
      (x y : A) (ys : List A)
      → before y x ≡ true
      → InOrder (y ∷ ys)
      → InOrder (insert before x ys)
      → InOrder (y ∷ insert before x ys)
  unfolding insert
  after_first-InOrder x y [] h o i = (asym y x h, tt)
  after_first-InOrder x y (z ∷ zs) h o i =
      first-InOrder (before z x) x y z zs (insert before x zs) h o i

  tail-InOrder : (y : A) (ys : List A) → InOrder (y ∷ ys) → InOrder ys
  tail-InOrder y [] o = tt
  tail-InOrder y (z ∷ zs) o = o.1

  place-InOrder :
      (b : Bool) (x y : A) (ys rest : List A)
      → before y x ≡ b
      → InOrder (y ∷ ys)
      → (before y x ≡ true → InOrder (y ∷ rest))
      → InOrder (place b x y ys rest)
  unfolding place
  place-InOrder true x y ys rest e o i = i e
  place-InOrder false x y ys rest e o i = (e, o)

  insert-InOrder : (x : A) (ys : List A) → InOrder ys → InOrder (insert before x ys)
  unfolding insert
  insert-InOrder x [] o = tt
  insert-InOrder x (y ∷ ys) o =
      place-InOrder (before y x) x y ys (insert before x ys) refl o
        (λ h. after_first-InOrder x y ys h o (insert-InOrder x ys (tail-InOrder y ys o)))

  insertion_sort-InOrder : (xs : List A) → InOrder (insertion_sort before xs)
  unfolding insertion_sort
  insertion_sort-InOrder [] = tt
  insertion_sort-InOrder (x ∷ xs) =
      insert-InOrder x (insertion_sort before xs) (insertion_sort-InOrder xs)

module _ {A : Type 0} (before : A → A → Bool) where
  place-perm :
      (b : Bool) (x y : A) (ys rest : List A)
      → Perm rest (x ∷ ys)
      → Perm (place b x y ys rest) (x ∷ y ∷ ys)
  unfolding place
  place-perm true x y ys rest p = Perm.trans (Perm.cons y p) (Perm.swap x y ys)
  place-perm false x y ys rest p = Perm.rfl

  insert-perm : (x : A) (ys : List A) → Perm (insert before x ys) (x ∷ ys)
  unfolding insert
  insert-perm x [] = Perm.rfl
  insert-perm x (y ∷ ys) = place-perm (before y x) x y ys (insert before x ys) (insert-perm x ys)

  insertion_sort-perm : (xs : List A) → Perm (insertion_sort before xs) xs
  unfolding insertion_sort
  insertion_sort-perm [] = Perm.rfl
  insertion_sort-perm (x ∷ xs) =
      Perm.trans (insert-perm x (insertion_sort before xs)) (Perm.cons x (insertion_sort-perm xs))

abbrev info : Info
info = record { is_symlink = false; is_regular = true; size = pos 100; mod_time = 7 }

abbrev inspect : String → Inspected
inspect p =
    if str_eq p "v10.mp4"
    then found (record info { size = pos 900 })
    else if str_eq p "gone.mp4"
    then vanished
    else found info

abbrev decode : String → Name
decode n = if str_eq n "v10.mp4" then v10 else v2

abbrev folder : Surroundings
folder = record {
  entries = ok ("v10.mp4" ∷ "gone.mp4" ∷ "notes.txt" ∷ "v2.mp4" ∷ []);
  path_of = λ n. n;
  lstat = inspect;
  ext = λ n. if str_eq n "notes.txt" then ".txt" else ".mp4";
  equal_fold = str_eq;
  name_of = decode;
  lower = lower;
  sort_slice = insertion_sort;
  draw =
      λ i. record { id_bytes = some []; random_bytes = some (0 ∷ 0 ∷ 0 ∷ 0 ∷ 0 ∷ 0 ∷ 0 ∷ i ∷ []) };
  hex = λ b. "";
}

abbrev listing : Result String (List Job) → List (String × JobState)
listing (err t) = []
listing (ok jobs) = map (λ (j : Job). (j.name, j.state)) jobs

finds_two : listing (scan folder (pos 500)) ≡ ("v2.mp4", queued) ∷ ("v10.mp4", oversize) ∷ []
unfolding scan list_files make_jobs new_ids random_id_of big_endian mark_uuid insertion_sort insert
    place compare_natural compare_runes compare_lists compare_digit_runs compare_digits digit_run
    after_run from_first_non_zero
finds_two = refl

sorts_before-asym :
    (a b : FileEntry) → sorts_before folder a b ≡ true → sorts_before folder b a ≡ false
sorts_before-asym a b h =
    let order = compare_natural-IsOrder lower lower-KeepsDigits in
    flipped (compare_natural lower (decode a.name) (decode b.name))
      (compare_natural lower (decode b.name) (decode a.name))
      (order.swap (decode a.name) (decode b.name)) h
  where
    flipped : (c d : Compared) → d ≡ flip c → is_less c ≡ true → is_less d ≡ false
    flipped less d e h = ap is_less e
    flipped same d e h = ap is_less e
    flipped greater d e h = absurd (cc h)

scan-Scanned_example : Scanned folder (pos 500) (scan folder (pos 500))
scan-Scanned_example =
    scan-Scanned folder lower-KeepsDigits
      (insertion_sort-InOrder (sorts_before folder) sorts_before-asym)
      (insertion_sort-perm (sorts_before folder)) (pos 500)
