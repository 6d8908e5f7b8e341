-- ===== src/Scanner/Key.antt =====
-- The natural order of names (compareNatural of internal/scanner/scanner.go) as the lexicographic
-- order of keys.
use telegram_uploader.Prelude.{
  ℕ, zero, suc, ◌≤◌, ◌<◌, true, false, ◌&&◌, List, [], ◌∷◌, ◌++◌, if◌then◌else◌, length, ◌≡◌, ◌≢◌,
  inl, inr, refl, sym, ap, ◌∙◌, arith, Bool-cases, append_nil, append_assoc,
}
use telegram_uploader.Scanner.Natural.{
  Name, Compared, less, same, greater, decided, compare_numbers, compare_lists, is_ascii_digit,
  digit_run, after_run, significant, compare_digits, compare_digit_runs, compare_runes,
  compare_natural,
}

-- A number sorts by the length of its significant digits, by these, and by the length of its run, at
-- the place of the digits among the runes.
abbrev pub number_key : List ℕ → List ℕ
number_key digits = 48 ∷ length (significant digits) ∷ (significant digits ++ length digits ∷ [])

abbrev pub flush : List ℕ → List ℕ
flush [] = []
flush (d ∷ ds) = number_key (d ∷ ds)

-- What the documentation of unicode.ToLower says of digits: they and only they become digits, and
-- they stay what they are.
pub record KeepsDigits (lower : ℕ → ℕ) : Type 0 where
  pub digit : (r : ℕ) → is_ascii_digit r ≡ true → lower r ≡ r
  pub other : (r : ℕ) → is_ascii_digit r ≡ false → is_ascii_digit (lower r) ≡ false

decided_assoc : (a b c : Compared) → decided (decided a b) c ≡ decided a (decided b c)
decided_assoc less b c = refl
decided_assoc same b c = refl
decided_assoc greater b c = refl

pub compare_numbers-same : (a b : ℕ) → compare_numbers a b ≡ same → a ≡ b
compare_numbers-same a b h = ground arith

pub compare_numbers_self : (a : ℕ) → compare_numbers a a ≡ same
compare_numbers_self a = ground arith

-- Lists of the same length are compared element by element.
compare_lists-append :
    (xs ys us vs : List ℕ)
    → length xs ≡ length ys
    → compare_lists (xs ++ us) (ys ++ vs) ≡ decided (compare_digits xs ys) (compare_lists us vs)
unfolding compare_lists compare_digits
compare_lists-append [] [] us vs h = refl
compare_lists-append [] (y ∷ ys) us vs h = absurd (omega (arith, h))
compare_lists-append (x ∷ xs) [] us vs h = absurd (omega (arith, h))
compare_lists-append (x ∷ xs) (y ∷ ys) us vs h =
    ap (decided (compare_numbers x y)) (compare_lists-append xs ys us vs (omega (arith, h)))
    ∙ sym (decided_assoc (compare_numbers x y) (compare_digits xs ys) (compare_lists us vs))

decided-cong : (c x y : Compared) → (c ≡ same → x ≡ y) → decided c x ≡ decided c y
decided-cong less x y h = refl
decided-cong same x y h = h refl
decided-cong greater x y h = refl

-- Two runs of digits, and what follows them.
compare_lists-number :
    (da db us vs : List ℕ)
    → compare_lists (number_key da ++ us) (number_key db ++ vs)
      ≡ decided (compare_digit_runs da db) (compare_lists us vs)
unfolding compare_lists compare_digit_runs
compare_lists-number da db us vs =
    let sa = significant da in
    let sb = significant db in
    let lens = compare_numbers (length sa) (length sb) in
    let digits = compare_digits sa sb in
    let runs = compare_numbers (length da) (length db) in
    let rest = compare_lists us vs in
    decided-cong lens (compare_lists ((sa ++ length da ∷ []) ++ us) ((sb ++ length db ∷ []) ++ vs))
      (decided (decided digits runs) rest)
      (λ e.
        ap (λ (xs : List ℕ). compare_lists xs ((sb ++ length db ∷ []) ++ vs))
          (append_assoc sa (length da ∷ []) us)
        ∙ ap (compare_lists (sa ++ length da ∷ us)) (append_assoc sb (length db ∷ []) vs)
        ∙ compare_lists-append sa sb (length da ∷ us) (length db ∷ vs)
            (compare_numbers-same (length sa) (length sb) e)
        ∙ sym (decided_assoc digits runs rest))
    ∙ sym (decided_assoc lens (decided digits runs) rest)

module _ (lower : ℕ → ℕ) where
  -- The key of a name, one rune after the other; `run` are the digits read so far.
  unfoldable pub key_from : List ℕ → List ℕ → List ℕ
  key_from run [] = flush run
  key_from run (r ∷ rs) =
      let longer = key_from (run ++ r ∷ []) rs in
      let next = key_from [] rs in if is_ascii_digit r then longer else flush run ++ lower r ∷ next

  abbrev pub natural_key : Name → List ℕ
  natural_key a = key_from [] a.runes

  key_from-run :
      (run rs : List ℕ)
      → key_from run rs ≡ flush (run ++ digit_run rs) ++ key_from [] (after_run rs)
  unfolding key_from digit_run after_run
  key_from-run run [] = ap flush (sym (append_nil run)) ∙ sym (append_nil (flush (run ++ [])))
  key_from-run run (r ∷ rs) = elim (Bool-cases (is_ascii_digit r)) [
    | inl e ↦ simp e (
        key_from-run (run ++ r ∷ []) rs
        ∙ ap (λ (xs : List ℕ). flush xs ++ key_from [] (after_run rs))
            (append_assoc run (r ∷ []) (digit_run rs)))
    | inr e ↦
        simp e (ap (λ (xs : List ℕ). flush xs ++ lower r ∷ key_from [] rs) (sym (append_nil run)))
  ]

  key_from-digit :
      (r : ℕ) (rs : List ℕ)
      → is_ascii_digit r ≡ true
      → key_from [] (r ∷ rs) ≡ number_key (digit_run (r ∷ rs)) ++ key_from [] (after_run (r ∷ rs))
  unfolding digit_run
  key_from-digit r rs e =
      let run : digit_run (r ∷ rs) ≡ r ∷ digit_run rs = simp e refl in
      key_from-run [] (r ∷ rs)
      ∙ ap (λ (xs : List ℕ). xs ++ key_from [] (after_run (r ∷ rs)))
          (ap flush run ∙ sym (ap number_key run))

  key_from-other :
      (r : ℕ) (rs : List ℕ)
      → is_ascii_digit r ≡ false
      → key_from [] (r ∷ rs) ≡ lower r ∷ key_from [] rs
  unfolding key_from
  key_from-other r rs e = simp e refl

  abbrev compare_keys : List ℕ → List ℕ → Compared
  compare_keys xs ys = compare_lists (key_from [] xs) (key_from [] ys)

  nil_key-less : (r : ℕ) (rs : List ℕ) → compare_lists [] (key_from [] (r ∷ rs)) ≡ less
  unfolding compare_lists
  nil_key-less r rs = elim (Bool-cases (is_ascii_digit r)) [
    | inl e ↦ ap (compare_lists []) (key_from-digit r rs e)
    | inr e ↦ ap (compare_lists []) (key_from-other r rs e)
  ]

  key-nil-greater : (r : ℕ) (rs : List ℕ) → compare_lists (key_from [] (r ∷ rs)) [] ≡ greater
  unfolding compare_lists
  key-nil-greater r rs = elim (Bool-cases (is_ascii_digit r)) [
    | inl e ↦ ap (λ (xs : List ℕ). compare_lists xs []) (key_from-digit r rs e)
    | inr e ↦ ap (λ (xs : List ℕ). compare_lists xs []) (key_from-other r rs e)
  ]

-- A digit and a rune that is none compare as any digit does.
digit_versus :
    (d r : ℕ)
    → is_ascii_digit d ≡ true
    → is_ascii_digit r ≡ false
    → (compare_numbers d r ≡ compare_numbers 48 r) × (compare_numbers 48 r ≢ same)
digit_versus d r h k = (ground arith, λ e. ground arith)

versus_digit :
    (d r : ℕ)
    → is_ascii_digit d ≡ true
    → is_ascii_digit r ≡ false
    → (compare_numbers r d ≡ compare_numbers r 48) × (compare_numbers r 48 ≢ same)
versus_digit d r h k = (ground arith, λ e. ground arith)

after_run-le : (rs : List ℕ) → length (after_run rs) ≤ length rs
unfolding after_run
after_run-le [] = omega arith
after_run-le (r ∷ rs) = elim (Bool-cases (is_ascii_digit r)) [
  | inl e ↦ simp e (omega (arith, after_run-le rs))
  | inr e ↦ simp e (omega arith)
]

after_run-lt :
    (r : ℕ) (rs : List ℕ) → is_ascii_digit r ≡ true → length (after_run (r ∷ rs)) ≤ length rs
unfolding after_run
after_run-lt r rs e = simp e (after_run-le rs)

compare_lists-heads :
    (ks ls us vs : List ℕ) (u v : ℕ)
    → ks ≡ u ∷ us
    → ls ≡ v ∷ vs
    → compare_lists ks ls ≡ decided (compare_numbers u v) (compare_lists us vs)
unfolding compare_lists
compare_lists-heads ks ls us vs u v p q =
    ap (λ (xs : List ℕ). compare_lists xs ls) p ∙ ap (compare_lists (u ∷ us)) q

-- Different first elements decide alone.
heads_decide :
    (c d x y tie : Compared) → (c ≡ d) → d ≢ same → decided c x ≡ decided (decided d y) tie
heads_decide c d x y tie e n =
    ap (λ k. decided k x) e
    ∙ decided-cong d x (decided y tie) (λ q. absurd (n q))
    ∙ sym (decided_assoc d y tie)

module _ (lower : ℕ → ℕ) (keeps : KeepsDigits lower) where
  -- The two names go on with a run of digits each.
  compare_keys-runs :
      (a b : ℕ) (xs ys : List ℕ)
      → is_ascii_digit a ≡ true
      → is_ascii_digit b ≡ true
      → compare_keys lower (a ∷ xs) (b ∷ ys)
        ≡ decided
            (compare_digit_runs (digit_run (a ∷ xs)) (digit_run (b ∷ ys)))
            (compare_keys lower (after_run (a ∷ xs)) (after_run (b ∷ ys)))
  compare_keys-runs a b xs ys p q =
      ap (λ (ks : List ℕ). compare_lists ks (key_from lower [] (b ∷ ys)))
        (key_from-digit lower a xs p)
      ∙ ap
          (compare_lists
            (number_key (digit_run (a ∷ xs)) ++ key_from lower [] (after_run (a ∷ xs))))
          (key_from-digit lower b ys q)
      ∙ compare_lists-number (digit_run (a ∷ xs)) (digit_run (b ∷ ys))
          (key_from lower [] (after_run (a ∷ xs))) (key_from lower [] (after_run (b ∷ ys)))

  number_tail : ℕ → List ℕ → List ℕ
  number_tail r rs =
      length (significant (digit_run (r ∷ rs)))
      ∷ ((significant (digit_run (r ∷ rs)) ++ length (digit_run (r ∷ rs)) ∷ [])
          ++ key_from lower [] (after_run (r ∷ rs)))

  key_heads :
      (r : ℕ) (rs : List ℕ)
      → is_ascii_digit r ≡ true
      → key_from lower [] (r ∷ rs) ≡ 48 ∷ number_tail r rs
  unfolding number_tail
  key_heads r rs p = key_from-digit lower r rs p

  keys_nil : compare_keys lower [] [] ≡ same
  unfolding key_from compare_lists
  keys_nil = refl

  nil_keys : (r : ℕ) (rs : List ℕ) → compare_keys lower [] (r ∷ rs) ≡ less
  unfolding key_from
  nil_keys r rs = nil_key-less lower r rs

  keys_over_nil : (r : ℕ) (rs : List ℕ) → compare_keys lower (r ∷ rs) [] ≡ greater
  unfolding key_from
  keys_over_nil r rs = key-nil-greater lower r rs

  runes_nil : (n : ℕ) (tie : Compared) → compare_runes lower (suc n) tie [] [] ≡ tie
  unfolding compare_runes
  runes_nil n tie = refl

  runes_over_nil :
      (n : ℕ) (tie : Compared) (a : ℕ) (xs : List ℕ)
      → compare_runes lower (suc n) tie (a ∷ xs) [] ≡ greater
  unfolding compare_runes
  runes_over_nil n tie a xs = refl

  nil_runes :
      (n : ℕ) (tie : Compared) (b : ℕ) (ys : List ℕ)
      → compare_runes lower (suc n) tie [] (b ∷ ys) ≡ less
  unfolding compare_runes
  nil_runes n tie b ys = refl

  round_of_runs :
      (n : ℕ) (tie : Compared) (a b : ℕ) (xs ys : List ℕ)
      → is_ascii_digit a ≡ true
      → is_ascii_digit b ≡ true
      → compare_runes lower (suc n) tie (a ∷ xs) (b ∷ ys)
        ≡ decided
            (compare_digit_runs (digit_run (a ∷ xs)) (digit_run (b ∷ ys)))
            (compare_runes lower n tie (after_run (a ∷ xs)) (after_run (b ∷ ys)))
  unfolding compare_runes
  round_of_runs n tie a b xs ys p q = simp (p, q) refl

  round_of_heads :
      (n : ℕ) (tie : Compared) (a b : ℕ) (xs ys : List ℕ)
      → (is_ascii_digit a && is_ascii_digit b) ≡ false
      → compare_runes lower (suc n) tie (a ∷ xs) (b ∷ ys)
        ≡ decided (compare_numbers (lower a) (lower b)) (compare_runes lower n tie xs ys)
  unfolding compare_runes
  round_of_heads n tie a b xs ys e = simp e refl

  -- One of two runes is a digit.
  digit-other :
      (n : ℕ) (tie : Compared) (a b : ℕ) (xs ys : List ℕ)
      → is_ascii_digit a ≡ true
      → is_ascii_digit b ≡ false
      → compare_runes lower (suc n) tie (a ∷ xs) (b ∷ ys)
        ≡ decided (compare_keys lower (a ∷ xs) (b ∷ ys)) tie
  digit-other n tie a b xs ys p q =
      let versus = digit_versus a (lower b) p (keeps.other b q) in
      round_of_heads n tie a b xs ys (simp (p, q) refl)
      ∙ heads_decide (compare_numbers (lower a) (lower b)) (compare_numbers 48 (lower b))
          (compare_runes lower n tie xs ys)
          (compare_lists (number_tail a xs) (key_from lower [] ys)) tie
          (ap (λ r. compare_numbers r (lower b)) (keeps.digit a p) ∙ versus.0) versus.1
      ∙ ap (λ c. decided c tie)
          (sym (
            compare_lists-heads (key_from lower [] (a ∷ xs)) (key_from lower [] (b ∷ ys))
              (number_tail a xs) (key_from lower [] ys) 48 (lower b) (key_heads a xs p)
              (key_from-other lower b ys q)))

  other-digit :
      (n : ℕ) (tie : Compared) (a b : ℕ) (xs ys : List ℕ)
      → is_ascii_digit a ≡ false
      → is_ascii_digit b ≡ true
      → compare_runes lower (suc n) tie (a ∷ xs) (b ∷ ys)
        ≡ decided (compare_keys lower (a ∷ xs) (b ∷ ys)) tie
  other-digit n tie a b xs ys p q =
      let versus = versus_digit b (lower a) q (keeps.other a p) in
      round_of_heads n tie a b xs ys (simp (p, q) refl)
      ∙ heads_decide (compare_numbers (lower a) (lower b)) (compare_numbers (lower a) 48)
          (compare_runes lower n tie xs ys)
          (compare_lists (key_from lower [] xs) (number_tail b ys)) tie
          (ap (compare_numbers (lower a)) (keeps.digit b q) ∙ versus.0) versus.1
      ∙ ap (λ c. decided c tie)
          (sym (
            compare_lists-heads (key_from lower [] (a ∷ xs)) (key_from lower [] (b ∷ ys))
              (key_from lower [] xs) (number_tail b ys) (lower a) 48 (key_from-other lower a xs p)
              (key_heads b ys q)))

  compare_runes-key :
      (n : ℕ) (tie : Compared) (xs ys : List ℕ)
      → length xs < n
      → compare_runes lower n tie xs ys ≡ decided (compare_keys lower xs ys) tie
  compare_runes-key zero tie xs ys h = absurd (omega (arith, h))
  compare_runes-key (suc n) tie [] [] h = runes_nil n tie ∙ sym (ap (λ c. decided c tie) keys_nil)
  compare_runes-key (suc n) tie (a ∷ xs) [] h =
      runes_over_nil n tie a xs ∙ sym (ap (λ c. decided c tie) (keys_over_nil a xs))
  compare_runes-key (suc n) tie [] (b ∷ ys) h =
      nil_runes n tie b ys ∙ sym (ap (λ c. decided c tie) (nil_keys b ys))
  compare_runes-key (suc n) tie (a ∷ xs) (b ∷ ys) h = elim (Bool-cases (is_ascii_digit a)) [
    | inl p ↦ elim (Bool-cases (is_ascii_digit b)) [
      | inl q ↦
          let runs = compare_digit_runs (digit_run (a ∷ xs)) (digit_run (b ∷ ys)) in
          let after = compare_keys lower (after_run (a ∷ xs)) (after_run (b ∷ ys)) in
          round_of_runs n tie a b xs ys p q
          ∙ ap (decided runs) (
              compare_runes-key n tie (after_run (a ∷ xs)) (after_run (b ∷ ys))
                (omega (arith, h, after_run-lt a xs p)))
          ∙ sym (decided_assoc runs after tie)
          ∙ ap (λ c. decided c tie) (sym (compare_keys-runs a b xs ys p q))
      | inr q ↦ digit-other n tie a b xs ys p q
    ]
    | inr p ↦ elim (Bool-cases (is_ascii_digit b)) [
      | inl q ↦ other-digit n tie a b xs ys p q
      | inr q ↦
          let heads = compare_numbers (lower a) (lower b) in
          round_of_heads n tie a b xs ys (simp (p, q) refl)
          ∙ ap (decided heads) (compare_runes-key n tie xs ys (omega (arith, h)))
          ∙ sym (decided_assoc heads (compare_keys lower xs ys) tie)
          ∙ ap (λ c. decided c tie)
              (sym (
                compare_lists-heads (key_from lower [] (a ∷ xs)) (key_from lower [] (b ∷ ys))
                  (key_from lower [] xs) (key_from lower [] ys) (lower a) (lower b)
                  (key_from-other lower a xs p) (key_from-other lower b ys q)))
    ]
  ]

  -- The natural order of names is the lexicographic order of their keys, and where the keys are the
  -- same that of their bytes: a key has the lower-case runes of the name, and for each run of digits
  -- the value of the number and then the length of its spelling. The fuel is enough for all names.
  pub compare_natural-key :
      (a b : Name)
      → compare_natural lower a b
        ≡ decided
            (compare_lists (natural_key lower a) (natural_key lower b))
            (compare_lists a.bytes b.bytes)
  unfolding compare_natural
  compare_natural-key a b =
      compare_runes-key (suc (length a.runes)) (compare_lists a.bytes b.bytes) a.runes b.runes
        (omega arith)
