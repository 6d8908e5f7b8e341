-- ===== src/Scanner/Order.antt =====
-- The natural order of names (compareNatural of internal/scanner/scanner.go) is a total order.
use telegram_uploader.Prelude.{ℕ, List, [], ◌∷◌, ◌≡◌, refl, sym, ap, subst, ◌∙◌, arith}
use telegram_uploader.Scanner.Natural.{
  Name, Compared, less, same, greater, decided, compare_numbers, compare_lists, compare_natural,
}
use telegram_uploader.Scanner.Key.{
  KeepsDigits, natural_key, compare_natural-key, compare_numbers-same, compare_numbers_self,
}

abbrev pub flip : Compared → Compared
flip less = greater
flip same = same
flip greater = less

-- A three-way comparison that is a total order on what `key` tells apart.
pub record IsOrder {A B : Type 0} (compare : A → A → Compared) (key : A → B) : Type 0 where
  pub self : (a : A) → compare a a ≡ same
  pub swap : (a b : A) → compare b a ≡ flip (compare a b)
  pub trans : (a b c : A) → compare a b ≡ less → compare b c ≡ less → compare a c ≡ less
  pub same_key : (a b : A) → compare a b ≡ same → key a ≡ key b

decided-flip : (c d : Compared) → decided (flip c) (flip d) ≡ flip (decided c d)
decided-flip less d = refl
decided-flip same d = refl
decided-flip greater d = refl

-- Two levels of a comparison, each of them transitive.
levels_trans :
    (ab bc ac x y z : Compared)
    → (ab ≡ less → bc ≡ less → ac ≡ less)
    → (ab ≡ less → bc ≡ same → ac ≡ less)
    → (ab ≡ same → bc ≡ less → ac ≡ less)
    → (ab ≡ same → bc ≡ same → ac ≡ same)
    → (x ≡ less → y ≡ less → z ≡ less)
    → decided ab x ≡ less
    → decided bc y ≡ less
    → decided ac z ≡ less
levels_trans less less ac x y z f g h k t p q = simp (f refl refl) refl
levels_trans less same ac x y z f g h k t p q = simp (g refl refl) refl
levels_trans less greater ac x y z f g h k t p q = absurd (cc q)
levels_trans same less ac x y z f g h k t p q = simp (h refl refl) refl
levels_trans same same ac x y z f g h k t p q = simp (k refl refl) (t p q)
levels_trans same greater ac x y z f g h k t p q = absurd (cc q)
levels_trans greater bc ac x y z f g h k t p q = absurd (cc p)

decided-same : (c d : Compared) → decided c d ≡ same → (c ≡ same) × (d ≡ same)
decided-same less d h = absurd (cc h)
decided-same same d h = (refl, h)
decided-same greater d h = absurd (cc h)

compare_numbers-flip : (a b : ℕ) → compare_numbers b a ≡ flip (compare_numbers a b)
compare_numbers-flip a b = ground arith

compare_lists_self : (xs : List ℕ) → compare_lists xs xs ≡ same
unfolding compare_lists
compare_lists_self [] = refl
compare_lists_self (x ∷ xs) = simp (compare_numbers_self x) (compare_lists_self xs)

compare_lists-flip : (xs ys : List ℕ) → compare_lists ys xs ≡ flip (compare_lists xs ys)
unfolding compare_lists
compare_lists-flip [] [] = refl
compare_lists-flip [] (y ∷ ys) = refl
compare_lists-flip (x ∷ xs) [] = refl
compare_lists-flip (x ∷ xs) (y ∷ ys) =
    ap (λ c. decided c (compare_lists ys xs)) (compare_numbers-flip x y)
    ∙ ap (decided (flip (compare_numbers x y))) (compare_lists-flip xs ys)
    ∙ decided-flip (compare_numbers x y) (compare_lists xs ys)

compare_lists-same : (xs ys : List ℕ) → compare_lists xs ys ≡ same → xs ≡ ys
unfolding compare_lists
compare_lists-same [] [] h = refl
compare_lists-same [] (y ∷ ys) h = absurd (cc h)
compare_lists-same (x ∷ xs) [] h = absurd (cc h)
compare_lists-same (x ∷ xs) (y ∷ ys) h =
    let s = decided-same (compare_numbers x y) (compare_lists xs ys) h in
    ap (λ z. z ∷ xs) (compare_numbers-same x y s.0) ∙ ap (◌∷◌ y) (compare_lists-same xs ys s.1)

compare_lists_trans :
    (xs ys zs : List ℕ)
    → compare_lists xs ys ≡ less
    → compare_lists ys zs ≡ less
    → compare_lists xs zs ≡ less
unfolding compare_lists
compare_lists_trans xs [] [] p q = absurd (cc q)
compare_lists_trans [] [] (z ∷ zs) p q = absurd (cc p)
compare_lists_trans (x ∷ xs) [] (z ∷ zs) p q = absurd (cc p)
compare_lists_trans xs (y ∷ ys) [] p q = absurd (cc q)
compare_lists_trans [] (y ∷ ys) (z ∷ zs) p q = refl
compare_lists_trans (x ∷ xs) (y ∷ ys) (z ∷ zs) p q =
    levels_trans (compare_numbers x y) (compare_numbers y z) (compare_numbers x z)
      (compare_lists xs ys) (compare_lists ys zs) (compare_lists xs zs) (λ a b. ground arith)
      (λ a b. ground arith) (λ a b. ground arith) (λ a b. ground arith)
      (compare_lists_trans xs ys zs) p q

-- Two lists of one name, compared one after the other.
abbrev by_both : (Name → List ℕ) → Name → Name → Compared
by_both key a b = decided (compare_lists (key a) (key b)) (compare_lists a.bytes b.bytes)

by_both_trans :
    (key : Name → List ℕ) (a b c : Name)
    → by_both key a b ≡ less
    → by_both key b c ≡ less
    → by_both key a c ≡ less
by_both_trans key a b c =
    let ab = compare_lists-same (key a) (key b) in
    let bc = compare_lists-same (key b) (key c) in
    levels_trans (compare_lists (key a) (key b)) (compare_lists (key b) (key c))
      (compare_lists (key a) (key c)) (compare_lists a.bytes b.bytes)
      (compare_lists b.bytes c.bytes) (compare_lists a.bytes c.bytes)
      (compare_lists_trans (key a) (key b) (key c))
      (λ p q. subst (λ k. compare_lists (key a) k ≡ less) (bc q) p)
      (λ p q. subst (λ k. compare_lists k (key c) ≡ less) (sym (ab p)) q)
      (λ p q. subst (λ k. compare_lists k (key c) ≡ same) (sym (ab p)) q)
      (compare_lists_trans a.bytes b.bytes c.bytes)

-- The natural order of names is a total order, and only names of the same bytes are equal in it.
pub compare_natural-IsOrder :
    (lower : ℕ → ℕ) → KeepsDigits lower → IsOrder (compare_natural lower) (λ (a : Name). a.bytes)
compare_natural-IsOrder lower keeps =
    let key = natural_key lower in
    let eq = compare_natural-key lower keeps in
    record {
      self = λ a.
          eq a a
          ∙ ap (λ c. decided c (compare_lists a.bytes a.bytes)) (compare_lists_self (key a))
          ∙ compare_lists_self a.bytes;
      swap = λ a b.
          eq b a
          ∙ ap (λ c. decided c (compare_lists b.bytes a.bytes)) (compare_lists-flip (key a) (key b))
          ∙ ap (decided (flip (compare_lists (key a) (key b)))) (compare_lists-flip a.bytes b.bytes)
          ∙ decided-flip (compare_lists (key a) (key b)) (compare_lists a.bytes b.bytes)
          ∙ ap flip (sym (eq a b));
      trans = λ a b c p q. eq a c ∙ by_both_trans key a b c (sym (eq a b) ∙ p) (sym (eq b c) ∙ q);
      same_key = λ a b p.
          compare_lists-same a.bytes b.bytes
            (decided-same (compare_lists (key a) (key b)) (compare_lists a.bytes b.bytes)
              (sym (eq a b) ∙ p)).1;
    }
