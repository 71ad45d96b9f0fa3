-- ===== src/Bus/Drawing.antt =====
-- BusEdge.tsx: what the component draws for a bus, before and between the frames.
use beauty_awg.Base.{Bool, true, false, Option, none, some, List, [], ◌∷◌, map}
use beauty_awg.Number.{Number, whole, ◌+◌, ◌*◌, ◌/◌}
use beauty_awg.Bus.{Particle}
use beauty_awg.Bus.Geometry.{Box, Geom, Dot, border_point, handles, place}
use beauty_awg.Bus.Phase.{Transition, bus_phase}
use beauty_awg.Bus.Frame.{Anchors, Layers, layers_of, core_width}

-- What is drawn. The line that is clicked runs straight between the two borders.
pub data Drawing (N : Type 0) : Type 0 where
  nothing : Drawing N
  -- A faded bus: the line alone.
  faded : Geom N → Drawing N
  -- A bus that folds: its layers, its invisible line, its particles.
  folding : Layers N → Geom N → List (Dot N) → Drawing N
  -- A settled bus, with the widths of the halo and the core.
  settled : Geom N → N → N → List (Dot N) → Drawing N

module _ {N : Type 0} ⦃R : Number N⦄ where
  unfoldable pub geom_of : Box N → Box N → Geom N
  geom_of from to =
      let a = border_point from to in
      let b = border_point to from in record { ax = a.x; ay = a.y; bx = b.x; by = b.y }

  unfoldable pub anchors_of : Box N → Box N → Anchors N
  anchors_of from to =
      let hf = handles from in
      let ht = handles to in
      record { from_r = hf.right; to_l = ht.left; to_r = ht.right; from_l = hf.left }

  -- The circles of a bus that folds.
  abbrev dots : List (Particle N) → Geom N → N → N → List (Dot N)
  dots [] g clock alpha = []
  dots (p ∷ ps) g clock alpha =
      let d = place p g clock in record d { opacity = d.opacity * alpha } ∷ dots ps g clock alpha

  -- The drawing of a bus whose two cards are there.
  draw_between :
      Box N → Box N → Bool → Option (Transition N) → N → N → List (Particle N) → Drawing N
  unfolding geom_of anchors_of
  draw_between from to true trans width now ps = faded (geom_of from to)
  draw_between from to false (some t) width now ps =
      let g = geom_of from to in
      let ph = bus_phase t now width in
      folding (layers_of ph (anchors_of from to) g) g (dots ps g (now / whole 1000) ph.bus_alpha)
  draw_between from to false none width now ps =
      let g = geom_of from to in
      settled g (width + whole 9) (core_width width) (map (λ p. place p g (now / whole 1000)) ps)

  -- The returns of `BusEdge`, with `dim` of its data, at the time `now`.
  unfoldable pub draw :
      Option (Box N)
      → Option (Box N)
      → Bool
      → Option (Transition N)
      → N
      → N
      → List (Particle N)
      → Drawing N
  unfolding draw_between
  draw (some from) (some to) dim trans width now ps = draw_between from to dim trans width now ps
  draw from to dim trans width now ps = nothing
