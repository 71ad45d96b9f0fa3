-- ===== src/Bus/Geometry.antt =====
-- BusEdge.tsx: where the line of a bus meets the two cards, its shape while it folds, and where a
-- particle is.
use beauty_awg.Base.{◌||◌, Option, none, some, if◌then◌else◌}
use beauty_awg.Number.{
  Number, lit, whole, ◌+◌, ◌-◌, ◌*◌, ◌/◌, ◌<?◌, ◌≤?◌, negated, absolute_value, ◌or_number◌,
}
use beauty_awg.Bus.{Particle}

pub record Pt (N : Type 0) : Type 0 where
  pub x : N
  pub y : N

-- A card: its absolute position, and its size once it is measured.
pub record Box (N : Type 0) : Type 0 where
  pub x : N
  pub y : N
  pub width : Option N
  pub height : Option N

-- The two ends of the line.
pub record Geom (N : Type 0) : Type 0 where
  pub ax : N
  pub ay : N
  pub bx : N
  pub by : N

pub record Handles (N : Type 0) : Type 0 where
  pub right : Pt N
  pub left : Pt N

-- `M start C first second stop`
pub record Curve (N : Type 0) : Type 0 where
  pub start : Pt N
  pub first : Pt N
  pub second : Pt N
  pub stop : Pt N

-- A particle's circle.
pub record Dot (N : Type 0) : Type 0 where
  pub cx : N
  pub cy : N
  pub r : N
  pub opacity : N

module _ {N : Type 0} ⦃R : Number N⦄ where
  -- `n.measured.width ?? 0`
  abbrev or_zero : Option N → N
  or_zero none = whole 0
  or_zero (some w) = w

  -- `borderPoint`
  unfoldable pub border_point : Box N → Box N → Pt N
  border_point from to =
      let fw = or_zero from.width / whole 2 in
      let fh = or_zero from.height / whole 2 in
      let fx = from.x + fw in
      let fy = from.y + fh in
      let tx = to.x + or_zero to.width / whole 2 in
      let ty = to.y + or_zero to.height / whole 2 in
      let dx = (tx - fx) / (whole 2 * fw) in
      let dy = (ty - fy) / (whole 2 * fh) in
      let u = dx - dy in
      let v = dx + dy in
      let scale = whole 1 / ((absolute_value u + absolute_value v) or_number whole 1) in
      let su = scale * u in
      let sv = scale * v in
      if R.same fw (whole 0) || R.same fh (whole 0)
      then record { x = fx; y = fy }
      else record { x = fw * (su + sv) + fx; y = fh * (sv - su) + fy }

  -- `handles`
  unfoldable pub handles : Box N → Handles N
  handles n =
      let middle = n.y + or_zero n.height / whole 2 in
      record {
        right = record { x = n.x + or_zero n.width; y = middle };
        left = record { x = n.x; y = middle };
      }

  -- `ctrlOffset`
  unfoldable pub ctrl_offset : N → N
  ctrl_offset dx = if whole 0 ≤? dx then lit 1 2 * dx else lit 1 4 * whole 25 * R.sqrt (negated dx)

  unfoldable pub lerp : N → N → N → N
  lerp a b t = a + (b - a) * t

  -- `morphPath`
  unfoldable pub morph_path : Pt N → Pt N → Pt N → Pt N → N → Curve N
  unfolding lerp ctrl_offset
  morph_path h0 h3 b0 b3 m =
      let x0 = lerp h0.x b0.x m in
      let y0 = lerp h0.y b0.y m in
      let x3 = lerp h3.x b3.x m in
      let y3 = lerp h3.y b3.y m in
      let off = ctrl_offset (x3 - x0) * (whole 1 - m) in
      record {
        start = record { x = x0; y = y0 };
        first = record { x = x0 + off; y = y0 };
        second = record { x = x3 - off; y = y3 };
        stop = record { x = x3; y = y3 };
      }

  -- `e * e * (3 - 2 * e)`
  abbrev pub smoothstep : N → N
  smoothstep e = e * e * (whole 3 - whole 2 * e)

  -- `lifeFade`
  unfoldable pub life_fade : N → N
  life_fade life = smoothstep (
      if life <? lit 18 100
      then life / lit 18 100
      else if (whole 1 - lit 3 10) <? life
      then (whole 1 - life) / lit 3 10
      else whole 1)

  -- `edgeFade`
  unfoldable pub edge_fade : N → N
  edge_fade t =
      if t ≤? whole 0 || whole 1 ≤? t
      then whole 0
      else smoothstep (
          if t <? lit 1 10
          then t / lit 1 10
          else if (whole 1 - lit 1 10) <? t
          then (whole 1 - t) / lit 1 10
          else whole 1)

  -- `Math.hypot(g.bx - g.ax, g.by - g.ay) || 1`
  unfoldable pub span : Geom N → N
  span g = R.hypot (g.bx - g.ax) (g.by - g.ay) or_number whole 1

  -- `place`
  unfoldable pub place : Particle N → Geom N → N → Dot N
  unfolding span life_fade edge_fade
  place p g clock =
      let dx = g.bx - g.ax in
      let dy = g.by - g.ay in
      let len = span g in
      let wobble =
        R.sin (clock * p.wf + p.phase) * p.amp + R.sin (clock * p.wf2 + p.phase2) * p.amp2 in
      record {
        cx = g.ax + dx * p.t + negated dy / len * wobble;
        cy = g.ay + dy * p.t + dx / len * wobble;
        r = p.r * (lit 8 10 + lit 2 10 * R.sin (clock * p.rf + p.phase));
        opacity = life_fade p.life * edge_fade p.t * p.alpha;
      }
