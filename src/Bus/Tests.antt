-- ===== src/Bus/Tests.antt =====
-- Runs of a bus, with fractions for numbers.
use beauty_awg.Base.{
  ◌≡◌, refl, ◌≤◌, none, some, [], ◌∷◌, arith, Text, ◌==◌, length, drop, true, false,
}
use beauty_awg.Base.{ℕ}
use beauty_awg.Base.Dict
use beauty_awg.Base.Dict.{Dict, lookup}
use beauty_awg.Number.Fraction.{Fraction, fraction, fractions}
use beauty_awg.Graph.Pairs.{Anim, start_bus_tx, form}
use beauty_awg.Bus.{Swarm, pool, cleared, get_swarm, new_swarm}
use beauty_awg.Bus.Geometry.{Pt, Geom, span}
use beauty_awg.Bus.Phase.{bus_phase}
use beauty_awg.Bus.Frame.{Anchors, frame, live_count}
use beauty_awg.Bus.Swarms.{
  IsBounded, Flown, here, next, begin, more, renders, Reach-keeps, length-spawn_all,
}
use beauty_awg.Bus.Flights.{count_flying, frame-flies}
use beauty_awg.Bus.Timeline.{AreExact, start_bus_tx-over}
use beauty_awg.Random.{hash}

fractions-AreExact : AreExact fractions
fractions-AreExact = record {
  order = λ a b h k. ground arith;
  difference = λ a b h k. ground arith;
  positive = λ a b h k l m. ground arith;
  quotient = λ a b h k l. ground arith;
}

abbrev bus_id : Text
bus_id = b'b' ∷ []

abbrev still : Anim
still = record { tx = []; timers = []; tick = 0 }

is_fresh : lookup bus_id still.tx ≡ none
unfolding lookup
is_fresh = refl

is_timed : lookup bus_id (start_bus_tx false 100 bus_id form still).timers ≡ some 900
unfolding start_bus_tx lookup Dict.insert ◌==◌
is_timed = refl

start_bus_tx-over_example :
    (lookup bus_id (start_bus_tx false 100 bus_id form still).tx
      ≡ some (record { kind = form; start = 100 }))
    × ((bus_phase {N = Fraction}
          (record { kind = form; start = fraction 100 1 })
          (fraction 1000 1)
          (fraction 7 1)).done
        ≡ true)
start_bus_tx-over_example =
    start_bus_tx-over fractions-AreExact bus_id form 100 1000 900 still (fraction 7 1) is_fresh
      is_timed (omega arith) (omega arith)

abbrev here_and_there : Geom Fraction
here_and_there = record {
  ax = fraction 0 1;
  ay = fraction 0 1;
  bx = fraction 240 1;
  by = fraction 0 1;
}

abbrev corner : Pt Fraction
corner = record { x = fraction 0 1; y = fraction 0 1 }

abbrev corners : Anchors Fraction
corners = record { from_r = corner; to_l = corner; to_r = corner; from_l = corner }

abbrev swarm : Swarm Fraction
swarm = new_swarm (hash bus_id)

swarm_full : length swarm.particles ≡ pool
unfolding new_swarm
swarm_full = length-spawn_all Fraction pool (hash bus_id)

frame-flies_example :
    let f =
      frame none (fraction 7 1) corners here_and_there pool (fraction 0 1) (fraction 16 1) swarm in
    let live = live_count (span here_and_there) in
    (count_flying f.shown ≡ live)
    × (9 ≤ live)
    × (live ≤ 34)
    × (length f.shown ≡ 34)
    × (drop live f.swarm.particles ≡ drop live swarm.particles)
frame-flies_example =
    frame-flies none (fraction 7 1) corners here_and_there (fraction 0 1) (fraction 16 1) swarm
      swarm_full

abbrev drawn : Dict (Swarm Fraction)
drawn = (get_swarm bus_id (hash bus_id) []).1

-- Another bus is rendered after it.
abbrev other_id : Text
other_id = b'c' ∷ []

abbrev both_drawn : Dict (Swarm Fraction)
both_drawn = (get_swarm other_id (hash other_id) drawn).1

few_drawn : length drawn ≤ 64
unfolding get_swarm lookup Dict.insert cleared
few_drawn = omega arith

Reach-keeps_example :
    IsBounded drawn
    × IsBounded both_drawn
    × ((id : Text) (s : Swarm Fraction)
        → lookup id drawn ≡ some s
        → (t : Swarm Fraction) × Flown s t
          × ((seed : ℕ) → get_swarm id seed both_drawn ≡ (t, both_drawn)))
Reach-keeps_example =
    Reach-keeps (next here (renders [] bus_id (hash bus_id)))
      (more begin few_drawn (renders drawn other_id (hash other_id)))
