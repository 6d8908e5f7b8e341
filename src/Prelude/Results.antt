-- ===== src/Prelude/Results.antt =====
-- Fallible results: a value, or an error of the model's own error type.
use mathlib.Core.Path.{◌≡◌, ap}

pub data Result (E A : Type 0) : Type 0 where
  ok : A → Result E A
  err : E → Result E A

abbrev value_or : {E A : Type 0} → A → Result E A → A
value_or d (ok a) = a
value_or d (err e) = d

pub ok_inj : {E A : Type 0} {a b : A} → ◌≡◌ {A = Result E A} (ok a) (ok b) → a ≡ b
ok_inj {a = a} e = ap (value_or a) e
