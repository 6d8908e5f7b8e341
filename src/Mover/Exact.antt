-- ===== src/Mover/Exact.antt =====
-- What a copy in pieces delivers (copyWithContext of internal/mover/mover.go).
use telegram_uploader.Prelude.{
  append_nil, append_assoc, ℕ, zero, suc, ◌==◌, ==_iff, min, List, [], ◌∷◌, ◌++◌, Option, none,
  some, length, take, drop, ◌≡◌, refl, sym, ap, subst, ◌∙◌, inl, inr, arith, Bool-cases,
}
use telegram_uploader.Mover.Copy.{
  OsError, end_of_file, canceled, Read, Write, Copied, advance, wrote, write_chunk, ended,
  after_chunk, copy_with_context, more, readable,
}

take-drop : (k : ℕ) (xs : List ℕ) → take k xs ++ drop k xs ≡ xs
take-drop zero xs = refl
take-drop (suc k) [] = refl
take-drop (suc k) (x ∷ xs) = ap (◌∷◌ x) (take-drop k xs)

advance-out : (bytes : List ℕ) (c : Copied) → (advance bytes c).out ≡ c.out ++ bytes
advance-out [] c = sym (append_nil c.out)
advance-out (b ∷ bs) c = elim (Bool-cases (length (b ∷ bs) == 0)) [
  | inl e ↦ absurd (omega (arith, (==_iff (length (b ∷ bs)) 0).0 e))
  | inr e ↦ simp e refl
]

-- All of the bytes have arrived, or, where there was an error, the first of them.
abbrev pub Arrived : List ℕ → List ℕ → List ℕ → Option OsError → Type 0
Arrived before bytes out none = out ≡ before ++ bytes
Arrived before bytes out (some e) =
    (first : List ℕ) × (rest : List ℕ) × (out ≡ before ++ first) × (first ++ rest ≡ bytes)

-- What arrives after a first part has arrived.
Arrived-after :
    (before first bytes mid out : List ℕ) (o : Option OsError)
    → mid ≡ before ++ first
    → Arrived mid bytes out o
    → Arrived before (first ++ bytes) out o
Arrived-after before first bytes mid out none e h =
    h ∙ ap (λ (xs : List ℕ). xs ++ bytes) e ∙ append_assoc before first bytes
Arrived-after before first bytes mid out (some f) e (a, b, p, q) = (
  first ++ a,
  b,
  p ∙ ap (λ (xs : List ℕ). xs ++ a) e ∙ append_assoc before first a,
  append_assoc first a b ∙ ap (◌++◌ first) q,
)

nothing-Arrived : (before bytes : List ℕ) (e : OsError) → Arrived before bytes before (some e)
nothing-Arrived before bytes e = ([], bytes, sym (append_nil before), refl)

part-Arrived :
    (before first rest bytes out : List ℕ) (e : OsError)
    → out ≡ before ++ first
    → first ++ rest ≡ bytes
    → Arrived before bytes out (some e)
part-Arrived before first rest bytes out e p q = (first, rest, p, q)

abbrev ChunkArrived : List ℕ → Copied → List Write × Copied × Option OsError → Type 0
ChunkArrived chunk c (ws, d, o) = Arrived c.out chunk d.out o

wrote-Arrived :
    (error : Option OsError) (k : ℕ) (chunk first rest : List ℕ) (c d : Copied) (ws : List Write)
    (again : List Write × Copied × Option OsError)
    → first ++ rest ≡ chunk
    → d.out ≡ c.out ++ first
    → ChunkArrived rest d again
    → ChunkArrived chunk c (wrote error k d ws again)
wrote-Arrived (some e) k chunk first rest c d ws again p q h = (first, rest, q, p)
wrote-Arrived none k chunk first rest c d ws again p q h = elim (Bool-cases (k == 0)) [
  | inl z ↦ simp z (first, rest, q, p)
  | inr z ↦ simp z (
      subst (λ xs. Arrived c.out xs again.1.out again.2) p
        (Arrived-after c.out first rest d.out again.1.out again.2 q h))
]

write_chunk-Arrived :
    (ws : List Write) (chunk : List ℕ) (c : Copied) → ChunkArrived chunk c (write_chunk ws chunk c)
unfolding write_chunk
write_chunk-Arrived ws [] c = sym (append_nil c.out)
write_chunk-Arrived [] (b ∷ bs) c = advance-out (b ∷ bs) c
write_chunk-Arrived (w ∷ ws) (b ∷ bs) c =
    let chunk = b ∷ bs in
    let k = min w.count (length chunk) in
    let d = advance (take k chunk) c in
    elim (Bool-cases w.done) [
      | inl e ↦ simp e (nothing-Arrived c.out chunk canceled)
      | inr e ↦ simp e (
          wrote-Arrived w.error k chunk (take k chunk) (drop k chunk) c d ws
            (write_chunk ws (drop k chunk) d) (take-drop k chunk) (advance-out (take k chunk) c)
            (write_chunk-Arrived ws (drop k chunk) d))
    ]

ended-Arrived :
    (error : Option OsError) (chunk rest : List ℕ) (c d : Copied) (again : Copied × Option OsError)
    → d.out ≡ c.out ++ chunk
    → Arrived d.out rest again.0.out again.1
    → Arrived c.out (chunk ++ more error rest) (ended error d again).0.out (ended error d again).1
ended-Arrived none chunk rest c d again p h =
    Arrived-after c.out chunk rest d.out again.0.out again.1 p h
ended-Arrived (some end_of_file) chunk rest c d again p h =
    p ∙ ap (◌++◌ c.out) (sym (append_nil chunk))
ended-Arrived (some e) chunk rest c d again p h = (chunk, [], p, refl)

after_chunk-Arrived :
    (o error : Option OsError) (chunk rest : List ℕ) (c d : Copied)
    (again : Copied × Option OsError)
    → Arrived c.out chunk d.out o
    → Arrived d.out rest again.0.out again.1
    → Arrived c.out
        (chunk ++ more error rest)
        (after_chunk o error d again).0.out
        (after_chunk o error d again).1
after_chunk-Arrived none error chunk rest c d again p h =
    ended-Arrived error chunk rest c d again p h
after_chunk-Arrived (some e) error chunk rest c d again (first, left, p, q) h = (
  first,
  left ++ more error rest,
  p,
  sym (append_assoc first left (more error rest)) ∙ ap (λ (xs : List ℕ). xs ++ more error rest) q,
)

-- A copy that reports no error has delivered everything the reader has to give, however the reads
-- and writes cut it up; a copy that fails has delivered a first part of it.
pub copy_with_context-Arrived :
    (rs : List Read) (ws : List Write) (c : Copied)
    → Arrived c.out (readable rs) (copy_with_context rs ws c).0.out (copy_with_context rs ws c).1
unfolding copy_with_context
copy_with_context-Arrived [] ws c = sym (append_nil c.out)
copy_with_context-Arrived (r ∷ rs) ws c =
    let w = write_chunk ws r.chunk c in
    elim (Bool-cases r.done) [
      | inl e ↦ simp e (nothing-Arrived c.out (readable (r ∷ rs)) canceled)
      | inr e ↦ simp e (
          after_chunk-Arrived w.2 r.error r.chunk (readable rs) c w.1 (copy_with_context rs w.0 w.1)
            (write_chunk-Arrived ws r.chunk c) (copy_with_context-Arrived rs w.0 w.1))
    ]
