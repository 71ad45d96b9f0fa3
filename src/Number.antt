-- ===== src/Number.antt =====
-- JavaScript's numbers where the panel computes with fractions: a parameter, since floating point
-- and the functions of Math are the language's own. `round` gives the whole numbers from 0 on. What
-- is compared is never NaN, so that `a <= b` is `!(b < a)`.
pub mod Fraction
use beauty_awg.Base.{ℕ, Bool, true, false, not, if◌then◌else◌}

pub record Number (N : Type 0) : Type 0 where
  pub of_nat : ℕ → N
  pub plus : N → N → N
  pub minus : N → N → N
  pub times : N → N → N
  pub over : N → N → N
  -- `a % b`
  pub rest : N → N → N
  pub below : N → N → Bool
  pub same : N → N → Bool
  pub sqrt : N → N
  pub sin : N → N
  pub hypot : N → N → N
  pub pi : N
  pub round : N → ℕ

module _ {N : Type 0} ⦃R : Number N⦄ where
  -- A literal n / d.
  abbrev pub lit : ℕ → ℕ → N
  lit n d = R.over (R.of_nat n) (R.of_nat d)

  abbrev pub whole : ℕ → N
  whole n = R.of_nat n

  infixl 65 ◌+◌ ◌-◌
  infixl 70 ◌*◌ ◌/◌
  abbrev pub ◌+◌ : N → N → N
  a + b = R.plus a b

  abbrev pub ◌-◌ : N → N → N
  a - b = R.minus a b

  abbrev pub ◌*◌ : N → N → N
  a * b = R.times a b

  abbrev pub ◌/◌ : N → N → N
  a / b = R.over a b

  infix 50 ◌<?◌ ◌≤?◌
  abbrev pub ◌<?◌ : N → N → Bool
  a <? b = R.below a b

  abbrev pub ◌≤?◌ : N → N → Bool
  a ≤? b = not (R.below b a)

  -- `-a`
  abbrev pub negated : N → N
  negated a = R.minus (R.of_nat 0) a

  abbrev pub least : N → N → N
  least a b = if R.below b a then b else a

  abbrev pub greatest : N → N → N
  greatest a b = if R.below a b then b else a

  abbrev pub absolute_value : N → N
  absolute_value a = if R.below a (R.of_nat 0) then R.minus (R.of_nat 0) a else a

  -- `a || b` on numbers.
  infix 40 ◌or_number◌
  abbrev pub ◌or_number◌ : N → N → N
  a or_number b = if R.same a (R.of_nat 0) then b else a
