-- ===== src/Scheduler/Alarms.antt =====
-- The alarms of a scheduled start (internal/ui/scheduler.go) and the generations they were made for.
use telegram_uploader.Prelude.{
  ℕ, zero, suc, ◌+◌, ◌%◌, ◌^◌, ◌≤◌, ◌<◌, ◌==◌, ==_iff, ==_refl, true, false, List, [], ◌∷◌, Option,
  none, some, if◌then◌else◌, ◌≡◌, ◌⊎◌, inl, inr, refl, arith, ap, sym, ◌∙◌, Bool-cases, All, length,
  Bool,
}
use telegram_uploader.Scheduler.{Alarm, fires, retries, pick, keep}
use telegram_uploader.Scheduler.Spec.{silenced, pick_flag, keep_flag}

abbrev pub made_for : Alarm → ℕ
made_for (fires g) = g
made_for (retries g) = g

-- The alarms that a generation is about.
abbrev pub current : ℕ → List Alarm → List Alarm
current g [] = []
current g (a ∷ rest) = let others = current g rest in if made_for a == g then a ∷ others else others

-- No alarm was made for a later generation.
abbrev pub Made : ℕ → List Alarm → Type 0
Made g alarms = All (λ a. made_for a ≤ g) alarms

-- The next generation, as long as the counter has not wrapped around.
pub next-lt : (g n : ℕ) → g + suc n < 2 ^ 64 → g < (g + 1) % 2 ^ 64
next-lt g n h = omega arith

pub next-room : (g n : ℕ) → g + suc n < 2 ^ 64 → (g + 1) % 2 ^ 64 + n < 2 ^ 64
next-room g n h = omega arith

pub Made-later : (g h : ℕ) (alarms : List Alarm) → g < h → Made g alarms → Made h alarms
Made-later g h [] l m = m
Made-later g h (a ∷ rest) l m = (omega (arith, l, m.0), Made-later g h rest l m.1)

pub current-later : (g h : ℕ) (alarms : List Alarm) → g < h → Made g alarms → current h alarms ≡ []
current-later g h [] l m = refl
current-later g h (a ∷ rest) l m =
    let ih = current-later g h rest l m.1 in
    elim (Bool-cases (made_for a == h)) [
      | inl e ↦ absurd (omega (arith, (==_iff (made_for a) h).0 e, m.0, l))
      | inr e ↦ simp e ih
    ]

pub current-same :
    (a : Alarm) (rest : List Alarm)
    → current (made_for a) (a ∷ rest) ≡ a ∷ current (made_for a) rest
current-same a rest = simp (==_refl (made_for a)) refl

-- What is left when an alarm has run: one of another generation leaves the current ones as they are,
-- and one of this generation is no longer among them.
abbrev pub Leaves : ℕ → List Alarm → Alarm → List Alarm → Type 0
Leaves g alarms a rest =
    (((made_for a == g) ≡ false) × (current g rest ≡ current g alarms))
    ⊎ (((made_for a == g) ≡ true)
        × (length (current g alarms) ≡ suc (length (current g rest)))
        × ((b : Alarm) → current g alarms ≡ b ∷ [] → a ≡ b))

abbrev pub PicksOne : ℕ → List Alarm → Option (Alarm × List Alarm) → Type 0
PicksOne g alarms none = Unit
PicksOne g alarms (some (a, rest)) = Made g rest × Leaves g alarms a rest

pub same_head : {a b : Alarm} {xs ys : List Alarm} → a ∷ xs ≡ b ∷ ys → a ≡ b
same_head h = cc h

current-hit :
    (g : ℕ) (a : Alarm) (rest : List Alarm)
    → (made_for a == g) ≡ true
    → current g (a ∷ rest) ≡ a ∷ current g rest
current-hit g a rest e = simp e refl

lone :
    (x b : Alarm) (rest alarms : List Alarm)
    → length alarms ≡ suc (length rest)
    → x ∷ alarms ≡ b ∷ []
    → ⊥
lone x b rest alarms l q = omega (arith, l, ap length q)

keep-Leaves :
    (g : ℕ) (x a : Alarm) (alarms rest : List Alarm)
    → Leaves g alarms a rest
    → Leaves g (x ∷ alarms) a (x ∷ rest)
keep-Leaves g x a alarms rest (inl l) = inl (
  l.0,
  elim (Bool-cases (made_for x == g)) [ inl e ↦ simp e (ap (◌∷◌ x) l.1) | inr e ↦ simp e l.1 ],
)
keep-Leaves g x a alarms rest (inr l) = elim (Bool-cases (made_for x == g)) [
  | inl e ↦
      simp e
        (inr (l.0, ap suc l.1, λ b q. absurd (lone x b (current g rest) (current g alarms) l.1 q)))
  | inr e ↦ simp e (inr l)
]

keep-PicksOne :
    (g : ℕ) (x : Alarm) (alarms : List Alarm) (p : Option (Alarm × List Alarm))
    → made_for x ≤ g
    → PicksOne g alarms p
    → PicksOne g (x ∷ alarms) (keep x p)
keep-PicksOne g x alarms none l h = tt
keep-PicksOne g x alarms (some (a, rest)) l h = ((l, h.0), keep-Leaves g x a alarms rest h.1)

pub pick-PicksOne :
    (g n : ℕ) (alarms : List Alarm) → Made g alarms → PicksOne g alarms (pick n alarms)
unfolding pick
pick-PicksOne g n [] m = tt
pick-PicksOne g zero (a ∷ rest) m = (
  m.1,
  elim (Bool-cases (made_for a == g)) [
    | inl e ↦ inr (e, simp e refl, λ b q. same_head (sym (current-hit g a rest e) ∙ q))
    | inr e ↦ inl (e, simp e refl)
  ],
)
pick-PicksOne g (suc n) (a ∷ rest) m =
    keep-PicksOne g a rest (pick n rest) m.0 (pick-PicksOne g n rest m.1)

-- For each alarm, whether it was made for a generation.
abbrev pub flags : ℕ → List Alarm → List Bool
flags g [] = []
flags g (a ∷ rest) = (made_for a == g) ∷ flags g rest

pub flags-later :
    (g h : ℕ) (alarms : List Alarm)
    → g < h
    → Made g alarms
    → flags h alarms ≡ silenced (flags g alarms)
flags-later g h [] l m = refl
flags-later g h (a ∷ rest) l m =
    let ih = flags-later g h rest l m.1 in
    elim (Bool-cases (made_for a == h)) [
      | inl e ↦ absurd (omega (arith, (==_iff (made_for a) h).0 e, m.0, l))
      | inr e ↦ simp e (ap (◌∷◌ false) ih)
    ]

abbrev pub flagged : ℕ → Option (Alarm × List Alarm) → Option (Bool × List Bool)
flagged g none = none
flagged g (some (a, rest)) = some (made_for a == g, flags g rest)

flagged-keep :
    (g : ℕ) (a : Alarm) (o : Option (Alarm × List Alarm))
    → keep_flag (made_for a == g) (flagged g o) ≡ flagged g (keep a o)
flagged-keep g a none = refl
flagged-keep g a (some (b, rest)) = refl

pub pick-flags :
    (g n : ℕ) (alarms : List Alarm) → pick_flag n (flags g alarms) ≡ flagged g (pick n alarms)
unfolding pick
pick-flags g n [] = refl
pick-flags g zero (a ∷ rest) = refl
pick-flags g (suc n) (a ∷ rest) =
    ap (keep_flag (made_for a == g)) (pick-flags g n rest) ∙ flagged-keep g a (pick n rest)
