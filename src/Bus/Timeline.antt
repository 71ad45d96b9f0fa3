-- ===== src/Bus/Timeline.antt =====
-- The timeline of a transition and the timer that ends it.
use beauty_awg.Base.{ℕ, ◌+◌, ◌-◌, ◌≤◌, ◌<◌, ◌≡◌, true, false, none, some, arith, Text, eq_refl, ltb}
use beauty_awg.Base.Dict
use beauty_awg.Base.Dict.{lookup, insert}
use beauty_awg.Number.{Number}
use beauty_awg.Graph.Pairs.{TxKind, form, split, Anim, start_bus_tx}
use beauty_awg.Bus.Phase.{bus_phase, progress, length_of}

-- `Number.MAX_SAFE_INTEGER + 1`
abbrev pub safe : ℕ
safe = 9007199254740992

-- What the timeline relies on of numbers, for whole ones that are exact in floating point, such as
-- milliseconds: their order and their differences are exact, and a quotient of positive numbers is
-- positive, and not below 1 unless the divisor is the greater.
pub record AreExact {N : Type 0} (R : Number N) : Type 0 where
  pub order : (a b : ℕ) → a < safe → b < safe → R.below (R.of_nat a) (R.of_nat b) ≡ ltb a b
  pub difference :
      (a b : ℕ) → a ≤ b → b < safe → R.minus (R.of_nat b) (R.of_nat a) ≡ R.of_nat (b - a)
  pub positive :
      (a b : ℕ)
      → 0 < a
      → 0 < b
      → a < safe
      → b < safe
      → R.below (R.of_nat 0) (R.over (R.of_nat a) (R.of_nat b)) ≡ true
  pub quotient :
      (a b : ℕ)
      → 0 < b
      → b ≤ a
      → a < safe
      → R.below (R.over (R.of_nat a) (R.of_nat b)) (R.of_nat 1) ≡ false

length_of_pos : (kind : TxKind) → 0 < length_of kind
length_of_pos form = omega arith
length_of_pos split = omega arith

module _ {N : Type 0} ⦃R : Number N⦄ (exact : AreExact R) where
  -- At or after its length, the timeline is at its end.
  progress_over :
      (kind : TxKind) (start now : ℕ)
      → start + length_of kind ≤ now
      → now < safe
      → R.below
          (progress (record { kind = kind; start = R.of_nat start }) (R.of_nat now))
          (R.of_nat 1)
        ≡ false
  unfolding progress
  progress_over kind start now h s = rw (exact.difference start now (omega arith) s) (
      ground (
        arith,
        length_of_pos kind,
        exact.order 1 1 (omega arith) (omega arith),
        exact.positive (now - start) (length_of kind),
        exact.quotient (now - start) (length_of kind),
      ))

  bus_phase_over :
      (kind : TxKind) (start now : ℕ) (width : N)
      → start + length_of kind ≤ now
      → now < safe
      → (bus_phase (record { kind = kind; start = R.of_nat start }) (R.of_nat now) width).done
        ≡ true
  unfolding bus_phase
  bus_phase_over form start now width h s = rw (progress_over form start now h s)
  bus_phase_over split start now width h s = rw (progress_over split start now h s)

  -- Where no transition was playing and one is started, its animation has ended when the timer that
  -- it was started with fires, or later, at a time that floating point holds exactly:
  -- the map never takes a bus off, or settles it, in the middle of a fold.
  pub start_bus_tx-over :
      (id : Text) (kind : TxKind) (now later fires : ℕ) (a : Anim) (width : N)
      → lookup id a.tx ≡ none
      → lookup id (start_bus_tx false now id kind a).timers ≡ some fires
      → fires ≤ later
      → later < safe
      → (lookup id (start_bus_tx false now id kind a).tx
          ≡ some (record { kind = kind; start = now }))
        × ((bus_phase (record { kind = kind; start = R.of_nat now }) (R.of_nat later) width).done
            ≡ true)
  unfolding start_bus_tx
  start_bus_tx-over id form now later fires a width fresh timed le s = ground (
    arith,
    bus_phase_over form now later width,
    eq_refl id,
    Dict.lookup-insert id id (record { kind = form; start = now }) a.tx,
    Dict.lookup-insert id id (now + 800) a.timers,
  )
  start_bus_tx-over id split now later fires a width fresh timed le s = ground (
    arith,
    bus_phase_over split now later width,
    eq_refl id,
    Dict.lookup-insert id id (record { kind = split; start = now }) a.tx,
    Dict.lookup-insert id id (now + 720) a.timers,
  )
