-- ===== src/Bus.antt =====
-- web/app/components/BusEdge.tsx: the swarm of particles that flies along a bus. Swarms are kept
-- outside the component, by the id of the bus.
pub mod Geometry
pub mod Phase
pub mod Frame
pub mod Drawing
pub mod Swarms
pub mod Flights
pub mod Timeline
mod Tests
use beauty_awg.Base.{
  ℕ, zero, suc, Bool, true, false, Option, none, some, List, [], ◌∷◌, Text, length, ltb,
  if◌then◌else◌,
}
use beauty_awg.Base.Dict.{Dict, lookup, insert}
use beauty_awg.Base.Words.{word}
use beauty_awg.Random.{next_seed, mulberry32}
use beauty_awg.Number.{Number, lit, whole, ◌+◌, ◌*◌, ◌/◌, ◌<?◌, negated}

abbrev pub pool : ℕ
pool = 34

abbrev pub min_live : ℕ
min_live = 9

pub record Particle (N : Type 0) : Type 0 where
  pub t : N
  pub speed : N
  pub amp : N
  pub wf : N
  pub phase : N
  pub amp2 : N
  pub wf2 : N
  pub phase2 : N
  pub r : N
  pub rf : N
  pub alpha : N
  pub life : N
  pub dur : N

-- `rnd` is the generator's seed.
pub record Swarm (N : Type 0) : Type 0 where
  pub particles : List (Particle N)
  pub rnd : ℕ

-- What draws random numbers: the seed is passed on.
abbrev pub Draw : Type 0 → Type 0
Draw A = ℕ → A × ℕ

infixl 5 ◌>>=◌
abbrev ◌>>=◌ : {A B : Type 0} → Draw A → (A → Draw B) → Draw B
◌>>=◌ m f seed = let (a, seed') = m seed in f a seed'

abbrev pure : {A : Type 0} → A → Draw A
pure a seed = (a, seed)

module _ {N : Type 0} ⦃R : Number N⦄ where
  unfoldable pub rnd : Draw N
  unfolding next_seed mulberry32
  rnd seed = let s = next_seed seed in (whole (mulberry32 s) / whole word, s)

  -- `respawn`; a fresh particle starts in the middle of its life.
  unfoldable pub respawn : Bool → Draw (Particle N)
  respawn fresh = do
    t ← rnd
    pace ← rnd
    side ← rnd
    amp ← rnd
    wf ← rnd
    phase ← rnd
    amp2 ← rnd
    wf2 ← rnd
    phase2 ← rnd
    r ← rnd
    rf ← rnd
    alpha ← rnd
    dur ← rnd
    life ← (if fresh then rnd else pure (whole 0))
    pure (record {
      t = t;
      speed =
          (lit 3 100 + pace * lit 12 100)
          * (if side <? lit 1 2 then negated (whole 1) else whole 1);
      amp = whole 1 + amp * whole 5;
      wf = lit 4 10 + wf * lit 15 10;
      phase = phase * R.pi * whole 2;
      amp2 = lit 1 2 + amp2 * whole 2;
      wf2 = whole 2 + wf2 * lit 36 10;
      phase2 = phase2 * R.pi * whole 2;
      r = lit 13 10 + r * whole 2;
      rf = whole 1 + rf * lit 25 10;
      alpha = lit 1 2 + alpha * lit 1 2;
      life = life;
      dur = lit 26 10 + dur * lit 55 10;
    })

  -- `Array.from({ length: n }, …)`
  unfoldable pub spawn_all : ℕ → Draw (List (Particle N))
  spawn_all zero = pure []
  spawn_all (suc n) = do p ← respawn true; ps ← spawn_all n; pure (p ∷ ps)

  unfoldable pub new_swarm : ℕ → Swarm N
  unfolding spawn_all
  new_swarm seed = let (ps, s) = spawn_all pool seed in record { particles = ps; rnd = s }

  -- `SWARMS` after its clearing.
  unfoldable pub cleared : Dict (Swarm N) → Dict (Swarm N)
  cleared swarms = if ltb 64 (length swarms) then [] else swarms

  -- `getSwarm`
  unfoldable pub get_swarm : Text → ℕ → Dict (Swarm N) → Swarm N × Dict (Swarm N)
  unfolding cleared
  get_swarm id seed swarms = elim (lookup id swarms) [
    | some s ↦ (s, swarms)
    | none ↦ (new_swarm seed, insert id (new_swarm seed) (cleared swarms))
  ]
