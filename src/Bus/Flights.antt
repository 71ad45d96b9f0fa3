-- ===== src/Bus/Flights.antt =====
-- A frame: how many particles it flies, and which it leaves as they are.
use beauty_awg.Base.{
  ℕ, zero, suc, ◌≤◌, ◌≡◌, refl, ap, Option, List, [], ◌∷◌, arith, length, drop, min,
}
use beauty_awg.Number.{Number}
use beauty_awg.Bus.{Particle, Swarm, pool}
use beauty_awg.Bus.Geometry.{Geom, span}
use beauty_awg.Bus.Phase.{Transition}
use beauty_awg.Bus.Frame.{Anchors, Shown, hidden, flying, fly_all, frame, live_count, advance}

module _ {N : Type 0} where
  -- The circles that a frame shows.
  abbrev pub count_flying : List (Shown N) → ℕ
  count_flying [] = 0
  count_flying (hidden ∷ ss) = count_flying ss
  count_flying (flying d ∷ ss) = suc (count_flying ss)

module _ {N : Type 0} ⦃R : Number N⦄ (dt : N) (g : Geom N) (clock alpha : N) where
  count_flying-fly_all :
      (kids live : ℕ) (ps : List (Particle N)) (seed : ℕ)
      → count_flying (fly_all dt g clock alpha kids live ps seed).shown
        ≡ min live (min kids (length ps))
  unfolding fly_all
  count_flying-fly_all kids live [] seed = omega arith
  count_flying-fly_all zero live (p ∷ ps) seed = omega arith
  count_flying-fly_all (suc kids) zero (p ∷ ps) seed =
      omega (arith, count_flying-fly_all kids zero ps seed)
  count_flying-fly_all (suc kids) (suc live) (p ∷ ps) seed =
      omega (arith, count_flying-fly_all kids live ps (advance dt p seed).1)

  length-shown :
      (kids live : ℕ) (ps : List (Particle N)) (seed : ℕ)
      → length (fly_all dt g clock alpha kids live ps seed).shown ≡ min kids (length ps)
  unfolding fly_all
  length-shown kids live [] seed = omega arith
  length-shown zero live (p ∷ ps) seed = omega arith
  length-shown (suc kids) zero (p ∷ ps) seed = omega (arith, length-shown kids zero ps seed)
  length-shown (suc kids) (suc live) (p ∷ ps) seed =
      omega (arith, length-shown kids live ps (advance dt p seed).1)

  still-fly_all :
      (kids : ℕ) (ps : List (Particle N)) (seed : ℕ)
      → (fly_all dt g clock alpha kids zero ps seed).particles ≡ ps
  unfolding fly_all
  still-fly_all kids [] seed = refl
  still-fly_all zero (p ∷ ps) seed = refl
  still-fly_all (suc kids) (p ∷ ps) seed = ap (λ r. p ∷ r) (still-fly_all kids ps seed)

  drop-fly_all :
      (kids live : ℕ) (ps : List (Particle N)) (seed : ℕ)
      → drop live (fly_all dt g clock alpha kids live ps seed).particles ≡ drop live ps
  unfolding fly_all
  drop-fly_all kids zero ps seed = still-fly_all kids ps seed
  drop-fly_all kids (suc live) [] seed = refl
  drop-fly_all zero (suc live) (p ∷ ps) seed = refl
  drop-fly_all (suc kids) (suc live) (p ∷ ps) seed = drop-fly_all kids live ps (advance dt p seed).1

module _ {N : Type 0} ⦃R : Number N⦄ where
  -- However long the bus, a frame of a whole swarm flies from 9 to 34 of its particles, as many as
  -- the length asks for, hides the other circles, and leaves the particles it does not fly as they
  -- were.
  pub frame-flies :
      (trans : Option (Transition N)) (width : N) (mo : Anchors N) (g : Geom N) (last now : N)
      (s : Swarm N)
      → length s.particles ≡ pool
      → let f = frame trans width mo g pool last now s in
        let live = live_count (span g) in
        (count_flying f.shown ≡ live)
        × (9 ≤ live)
        × (live ≤ 34)
        × (length f.shown ≡ 34)
        × (drop live f.swarm.particles ≡ drop live s.particles)
  unfolding frame live_count
  frame-flies trans width mo g last now s full = (
    omega (arith, full, count_flying-fly_all _ g _ _ pool (live_count (span g)) s.particles s.rnd),
    omega arith,
    omega arith,
    omega (arith, full, length-shown _ g _ _ pool (live_count (span g)) s.particles s.rnd),
    drop-fly_all _ g _ _ pool (live_count (span g)) s.particles s.rnd,
  )
