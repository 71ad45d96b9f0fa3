-- ===== src/Number/Fraction.antt =====
-- Fractions that are not negative, a number type that runs: differences stop at 0.
use beauty_awg.Base.{ℕ, ◌+◌, ◌-◌, ◌*◌, ◌/◌, ltb, eqb}
use beauty_awg.Number.{Number}

pub record Fraction : Type 0 where
  pub top : ℕ
  pub bottom : ℕ

abbrev pub fraction : ℕ → ℕ → Fraction
fraction n d = record { top = n; bottom = d }

instance abbrev pub fractions : Number Fraction
fractions = record {
  of_nat = λ n. fraction n 1;
  plus = λ a b. fraction (a.top * b.bottom + b.top * a.bottom) (a.bottom * b.bottom);
  minus = λ a b. fraction (a.top * b.bottom - b.top * a.bottom) (a.bottom * b.bottom);
  times = λ a b. fraction (a.top * b.top) (a.bottom * b.bottom);
  over = λ a b. fraction (a.top * b.bottom) (a.bottom * b.top);
  rest = λ a b. a;
  below = λ a b. ltb (a.top * b.bottom) (b.top * a.bottom);
  same = λ a b. eqb (a.top * b.bottom) (b.top * a.bottom);
  sqrt = λ a. a;
  sin = λ a. fraction 0 1;
  hypot = λ a b. fraction (a.top * b.bottom + b.top * a.bottom) (a.bottom * b.bottom);
  pi = fraction 355 113;
  round = λ a. (2 * a.top + a.bottom) / (2 * a.bottom);
}
