-- ===== src/Scanner/Natural.antt =====
-- The natural order of file names (compareNatural of internal/scanner/scanner.go). A name is given by
-- its bytes and by its runes, which Go decodes from them; `lower` is unicode.ToLower.
use telegram_uploader.Prelude.{
  ℕ, zero, suc, ltb, leb, ◌==◌, Bool, ◌&&◌, List, [], ◌∷◌, if◌then◌else◌, length,
}

pub record Name : Type 0 where
  pub bytes : List ℕ
  pub runes : List ℕ

-- -1, 0 and 1.
pub data Compared : Type 0 where
  less same greater : Compared

-- The first comparison that decides.
abbrev pub decided : Compared → Compared → Compared
decided less next = less
decided same next = next
decided greater next = greater

-- if a < b { return -1 }; if a > b { return 1 }
abbrev pub compare_numbers : ℕ → ℕ → Compared
compare_numbers a b = if ltb a b then less else if ltb b a then greater else same

-- strings.Compare, on the bytes.
unfoldable pub compare_lists : List ℕ → List ℕ → Compared
compare_lists [] [] = same
compare_lists [] (b ∷ bs) = less
compare_lists (a ∷ xs) [] = greater
compare_lists (a ∷ xs) (b ∷ bs) =
    let rest = compare_lists xs bs in decided (compare_numbers a b) rest

abbrev pub is_ascii_digit : ℕ → Bool
is_ascii_digit r = leb 48 r && leb r 57

-- The runs of digits that the inner loops find, and what follows.
unfoldable pub digit_run : List ℕ → List ℕ
digit_run [] = []
digit_run (r ∷ rs) = let rest = digit_run rs in if is_ascii_digit r then r ∷ rest else []

unfoldable pub after_run : List ℕ → List ℕ
after_run [] = []
after_run (r ∷ rs) = let rest = after_run rs in if is_ascii_digit r then rest else r ∷ rs

-- digits[firstNonZero(digits):]
unfoldable pub from_first_non_zero : List ℕ → List ℕ
from_first_non_zero [] = []
from_first_non_zero (d ∷ ds) = let rest = from_first_non_zero ds in if d == 48 then rest else d ∷ ds

abbrev pub or_zero : List ℕ → List ℕ
or_zero [] = 48 ∷ []
or_zero (d ∷ ds) = d ∷ ds

abbrev pub significant : List ℕ → List ℕ
significant digits = or_zero (from_first_non_zero digits)

-- The loop over digits of the same number.
unfoldable pub compare_digits : List ℕ → List ℕ → Compared
compare_digits (a ∷ xs) (b ∷ ys) =
    let rest = compare_digits xs ys in decided (compare_numbers a b) rest
compare_digits xs ys = same

unfoldable pub compare_digit_runs : List ℕ → List ℕ → Compared
compare_digit_runs a b =
    decided (compare_numbers (length (significant a)) (length (significant b))) (
      decided (compare_digits (significant a) (significant b))
        (compare_numbers (length a) (length b)))

module _ (lower : ℕ → ℕ) where
  -- The outer loop, on fuel: each round takes at least one rune of the first name.
  unfoldable pub compare_runes : ℕ → Compared → List ℕ → List ℕ → Compared
  compare_runes zero tie xs ys = tie
  compare_runes (suc n) tie [] [] = tie
  compare_runes (suc n) tie (a ∷ xs) [] = greater
  compare_runes (suc n) tie [] (b ∷ ys) = less
  compare_runes (suc n) tie (a ∷ xs) (b ∷ ys) =
      let after = compare_runes n tie (after_run (a ∷ xs)) (after_run (b ∷ ys)) in
      let rest = compare_runes n tie xs ys in
      if is_ascii_digit a && is_ascii_digit b
      then decided (compare_digit_runs (digit_run (a ∷ xs)) (digit_run (b ∷ ys))) after
      else decided (compare_numbers (lower a) (lower b)) rest

  unfoldable pub compare_natural : Name → Name → Compared
  compare_natural a b =
      compare_runes (suc (length a.runes)) (compare_lists a.bytes b.bytes) a.runes b.runes
