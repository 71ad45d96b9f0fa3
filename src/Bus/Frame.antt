-- ===== src/Bus/Frame.antt =====
-- BusEdge.tsx: one frame of the animation. The particles of the swarm are moved in place, and the
-- layers of a bus that folds are set anew.
use beauty_awg.Base.{
  ℕ, zero, suc, max, min, Bool, false, ◌&&◌, not, Option, none, some, List, [], ◌∷◌, if◌then◌else◌,
}
use beauty_awg.Number.{Number, lit, whole, ◌+◌, ◌-◌, ◌*◌, ◌/◌, ◌<?◌, ◌≤?◌, least, greatest}
use beauty_awg.Bus.{Particle, Swarm, pool, min_live, respawn}
use beauty_awg.Bus.Geometry.{Pt, Geom, Curve, Dot, morph_path, place, span}
use beauty_awg.Bus.Phase.{Transition, Phase, bus_phase}

-- `morphRef`
pub record Anchors (N : Type 0) : Type 0 where
  pub from_r : Pt N
  pub to_l : Pt N
  pub to_r : Pt N
  pub from_l : Pt N

-- A path that is drawn, with its width and its opacity.
pub record Stroke (N : Type 0) : Type 0 where
  pub d : Curve N
  pub width : N
  pub opacity : N

-- The layers of a bus that folds, `halo`, `body`, `body2` and `core`.
pub record Layers (N : Type 0) : Type 0 where
  pub halo : Stroke N
  pub body : Stroke N
  pub body2 : Stroke N
  pub core : Stroke N

-- What a frame sets on the circle of a particle: its opacity to 0, or all of it.
pub data Shown (N : Type 0) : Type 0 where
  hidden : Shown N
  flying : Dot N → Shown N

pub record Flight (N : Type 0) : Type 0 where
  pub particles : List (Particle N)
  pub rnd : ℕ
  pub shown : List (Shown N)

-- What a frame leaves: the time of the last one, the swarm, the circles, and the layers that it set.
pub record Picture (N : Type 0) : Type 0 where
  pub last : N
  pub swarm : Swarm N
  pub shown : List (Shown N)
  pub layers : Option (Layers N)

-- The effect's two tests: the loop runs for a bus that is not faded, where motion is wanted.
unfoldable pub runs : Bool → Bool → Bool
runs active reduced = active && not reduced

module _ {N : Type 0} ⦃R : Number N⦄ where
  -- `Math.max(1.6, width / 3.2)`
  abbrev pub core_width : N → N
  core_width width = greatest (lit 16 10) (width / lit 32 10)

  unfoldable pub layers_of : Phase N → Anchors N → Geom N → Layers N
  layers_of ph mo g =
      let from : Pt N = record { x = g.ax; y = g.ay } in
      let to : Pt N = record { x = g.bx; y = g.by } in
      let body_d = morph_path mo.from_r mo.to_l from to ph.m in
      record {
        halo = record {
          d = body_d;
          width = ph.width + whole 9;
          opacity = lit 18 100 * ph.bus_alpha;
        };
        body = record { d = body_d; width = ph.width; opacity = whole 1 };
        body2 = record {
          d = morph_path mo.to_r mo.from_l to from ph.m;
          width = ph.width;
          opacity = ph.body2_op;
        };
        core = record {
          d = body_d;
          width = core_width ph.width;
          opacity = lit 2 10 * ph.bus_alpha;
        };
      }

  -- `live`, the particles that are flown.
  unfoldable pub live_count : N → ℕ
  live_count len = max min_live (min pool (R.round (len * (whole 1 / whole 24))))

  -- `p.t` after its step, wrapped at the ends.
  abbrev wrapped : N → N
  wrapped t = if whole 1 <? t then t - whole 1 else if t <? whole 0 then t + whole 1 else t

  -- A particle whose life has ended is born anew.
  abbrev reborn : Particle N → ℕ → Particle N × ℕ
  reborn p seed = if whole 1 ≤? p.life then respawn false seed else (p, seed)

  unfoldable pub advance : N → Particle N → ℕ → Particle N × ℕ
  advance dt p seed =
      let (q, seed') = reborn (record p { life = p.life + dt / p.dur }) seed in
      (record q { t = wrapped (q.t + q.speed * dt) }, seed')

  -- The opacity is lowered while the bus folds.
  abbrev faded : N → Dot N → Dot N
  faded alpha d = record d { opacity = d.opacity * alpha }

  -- The loop over the particles, with the circles that are drawn and the particles to fly that are
  -- left. A particle with no circle is passed over.
  unfoldable pub fly_all : N → Geom N → N → N → ℕ → ℕ → List (Particle N) → ℕ → Flight N
  unfolding advance
  fly_all dt g clock alpha kids live [] seed = record { particles = []; rnd = seed; shown = [] }
  fly_all dt g clock alpha zero live (p ∷ ps) seed = record {
    particles = p ∷ ps;
    rnd = seed;
    shown = [];
  }
  fly_all dt g clock alpha (suc kids) zero (p ∷ ps) seed =
      let rest = fly_all dt g clock alpha kids zero ps seed in
      record rest { particles = p ∷ rest.particles; shown = hidden ∷ rest.shown }
  fly_all dt g clock alpha (suc kids) (suc live) (p ∷ ps) seed =
      let (q, seed') = advance dt p seed in
      let rest = fly_all dt g clock alpha kids live ps seed' in
      record rest {
        particles = q ∷ rest.particles;
        shown = flying (faded alpha (place q g clock)) ∷ rest.shown;
      }

  -- `dt`, at most a twentieth of a second.
  abbrev elapsed : N → N → N
  elapsed now last = least (lit 5 100) ((now - last) / whole 1000)

  abbrev alpha_of : Option (Phase N) → N
  alpha_of none = whole 1
  alpha_of (some ph) = ph.bus_alpha

  abbrev phase_now : Option (Transition N) → N → N → Option (Phase N)
  phase_now none now width = none
  phase_now (some t) now width = some (bus_phase t now width)

  abbrev set_layers : Option (Phase N) → Anchors N → Geom N → Option (Layers N)
  set_layers none mo g = none
  set_layers (some ph) mo g = some (layers_of ph mo g)

  -- `step` of the effect: `kids` is the number of circles, `width` the settled width.
  unfoldable pub frame :
      Option (Transition N) → N → Anchors N → Geom N → ℕ → N → N → Swarm N → Picture N
  unfolding fly_all layers_of live_count
  frame trans width mo g kids last now s =
      let ph = phase_now trans now width in
      let flight =
        fly_all (elapsed now last) g (now / whole 1000) (alpha_of ph) kids (live_count (span g))
          s.particles s.rnd in
      record {
        last = now;
        swarm = record { particles = flight.particles; rnd = flight.rnd };
        shown = flight.shown;
        layers = set_layers ph mo g;
      }
