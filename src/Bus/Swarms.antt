-- ===== src/Bus/Swarms.antt =====
-- Swarms: their number is bounded, each has its particles, and a bus keeps its own from one render
-- to the next.
pub mod Entries
use beauty_awg.Base.{
  ℕ, zero, suc, ◌+◌, ◌≤◌, ◌≡◌, inl, inr, refl, ap, ◌∙◌, true, Option, some, List, [], ◌∷◌, arith,
  Text, ◌==◌, eq_iff, subst, length, All, Option-cases, Bool-cases,
}
use beauty_awg.Base.Sets.{Nodup}
use beauty_awg.Base.Dict
use beauty_awg.Base.Dict.{Dict, keys, lookup, insert}
use beauty_awg.Number.{Number}
use beauty_awg.Bus.{Particle, Swarm, pool, respawn, spawn_all, new_swarm, cleared, get_swarm}
use beauty_awg.Bus.Geometry.{Geom}
use beauty_awg.Bus.Phase.{Transition}
use beauty_awg.Bus.Frame.{Anchors, fly_all, frame, advance}
use beauty_awg.Bus.Swarms.Entries.{length-insert, length-insert_there, All-insert, All-lookup}

module _ (N : Type 0) ⦃R : Number N⦄ where
  pub length-spawn_all : (n seed : ℕ) → length (spawn_all {N = N} n seed).0 ≡ n
  unfolding spawn_all
  length-spawn_all zero seed = refl
  length-spawn_all (suc n) seed = ap suc (length-spawn_all n (respawn {N = N} true seed).1)

module _ {N : Type 0} ⦃R : Number N⦄ where
  -- The swarms that are kept: 65 at most, one for each bus, and each with all its particles.
  pub record IsBounded (swarms : Dict (Swarm N)) : Type 0 where
    pub bounded : length swarms ≤ 65
    pub distinct : Nodup (keys swarms)
    pub full : All (λ e. length e.1.particles ≡ pool) swarms

  cleared-IsBounded :
      (d : Dict (Swarm N)) → IsBounded d → IsBounded (cleared d) × (length (cleared d) ≤ 64)
  unfolding cleared
  cleared-IsBounded d b = ground arith

  insert-IsBounded :
      (k : Text) (v : Swarm N) (d : Dict (Swarm N))
      → length v.particles ≡ pool
      → length (insert k v d) ≤ 65
      → IsBounded d
      → IsBounded (insert k v d)
  insert-IsBounded k v d full le b = record {
    bounded = le;
    distinct = Dict.insert-Nodup k v d b.distinct;
    full = All-insert k v d full b.full;
  }

  get_swarm-IsBounded :
      (id : Text) (seed : ℕ) (d : Dict (Swarm N)) → IsBounded d → IsBounded (get_swarm id seed d).1
  unfolding get_swarm new_swarm
  get_swarm-IsBounded id seed d b = elim (Option-cases (lookup id d)) [
    | inl absent ↦
        rw (absent, get_swarm)
          (insert-IsBounded id (new_swarm seed) (cleared d) (length-spawn_all N pool seed)
            (omega
              (arith, length-insert id (new_swarm seed) (cleared d), (cleared-IsBounded d b).1))
            (cleared-IsBounded d b).0)
    | inr (s, there) ↦ rw (there, get_swarm) b
  ]

  length-fly_all :
      (dt : N) (g : Geom N) (clock alpha : N) (kids live : ℕ) (ps : List (Particle N)) (seed : ℕ)
      → length (fly_all dt g clock alpha kids live ps seed).particles ≡ length ps
  unfolding fly_all
  length-fly_all dt g clock alpha kids live [] seed = refl
  length-fly_all dt g clock alpha zero live (p ∷ ps) seed = refl
  length-fly_all dt g clock alpha (suc kids) zero (p ∷ ps) seed =
      ap suc (length-fly_all dt g clock alpha kids zero ps seed)
  length-fly_all dt g clock alpha (suc kids) (suc live) (p ∷ ps) seed =
      ap suc (length-fly_all dt g clock alpha kids live ps (advance dt p seed).1)

  -- What happens to the swarms, in any order: a bus is rendered, or one that has its swarm there is
  -- moved by a frame.
  pub data Step : Dict (Swarm N) → Dict (Swarm N) → Type 0 where
    renders : (d : Dict (Swarm N)) (id : Text) (seed : ℕ) → Step d (get_swarm id seed d).1
    flies :
        (d : Dict (Swarm N)) (id : Text) (s : Swarm N) (trans : Option (Transition N)) (width : N)
        (mo : Anchors N) (g : Geom N) (kids : ℕ) (last now : N)
        → lookup id d ≡ some s
        → Step d (insert id (frame trans width mo g kids last now s).swarm d)

  pub data Reach (start : Dict (Swarm N)) : Dict (Swarm N) → Type 0 where
    here : Reach start start
    next : {d e : Dict (Swarm N)} → Reach start d → Step d e → Reach start e

  frame-full :
      (trans : Option (Transition N)) (width : N) (mo : Anchors N) (g : Geom N) (kids : ℕ)
      (last now : N) (s : Swarm N)
      → length (frame trans width mo g kids last now s).swarm.particles ≡ length s.particles
  unfolding frame
  frame-full trans width mo g kids last now s = length-fly_all _ g _ _ kids _ s.particles s.rnd

  Step-IsBounded : {d e : Dict (Swarm N)} → Step d e → IsBounded d → IsBounded e
  Step-IsBounded (renders d id seed) b = get_swarm-IsBounded id seed d b
  Step-IsBounded (flies d id s trans width mo g kids last now there) b =
      insert-IsBounded id _ d
        (frame-full trans width mo g kids last now s ∙ All-lookup id s d b.full there)
        (rw (length-insert_there id (frame trans width mo g kids last now s).swarm s d there)
          b.bounded)
        b

  Reach-IsBounded : {d : Dict (Swarm N)} → Reach [] d → IsBounded d
  Reach-IsBounded here = record { bounded = omega arith; distinct = tt; full = tt }
  Reach-IsBounded (next r s) = Step-IsBounded s (Reach-IsBounded r)

  -- A swarm after frames of its own.
  pub data Flown (start : Swarm N) : Swarm N → Type 0 where
    still : Flown start start
    flown :
        {s : Swarm N}
        → Flown start s
        → (trans : Option (Transition N)) (width : N) (mo : Anchors N) (g : Geom N) (kids : ℕ)
          (last now : N)
        → Flown start (frame trans width mo g kids last now s).swarm

  -- A part of a run in which no step finds more than 64 swarms, so that none are cleared.
  pub data Uncleared (start : Dict (Swarm N)) : Dict (Swarm N) → Type 0 where
    begin : Uncleared start start
    more : {d e : Dict (Swarm N)} → Uncleared start d → length d ≤ 64 → Step d e → Uncleared start e

  -- That the bus of that id has a swarm that `start` flew to.
  abbrev Has : Text → Swarm N → Dict (Swarm N) → Type 0
  Has id start d = (t : Swarm N) × Flown start t × (lookup id d ≡ some t)

  uncleared : (d : Dict (Swarm N)) → length d ≤ 64 → cleared d ≡ d
  unfolding cleared
  uncleared d h = ground arith

  lookup-get_swarm :
      (id j : Text) (seed : ℕ) (d : Dict (Swarm N)) (t : Swarm N)
      → length d ≤ 64
      → lookup id d ≡ some t
      → lookup id (get_swarm j seed d).1 ≡ some t
  unfolding get_swarm
  lookup-get_swarm id j seed d t small has = elim (Option-cases (lookup j d)) [
    | inl absent ↦
        rw (absent, get_swarm, uncleared d small)
          (ground (
            arith,
            Dict.lookup-insert id j (new_swarm seed) d,
            eq_iff j id,
            λ (e : j ≡ id). ap (λ k. lookup k d) e,
          ))
    | inr (s, there) ↦ rw (there, get_swarm) has
  ]

  held_same :
      (id j : Text) (t s : Swarm N) (d : Dict (Swarm N))
      → j ≡ id
      → lookup id d ≡ some t
      → lookup j d ≡ some s
      → t ≡ s
  held_same id j t s d e has there = cc

  flies-Has :
      (id j : Text) (start s : Swarm N) (d : Dict (Swarm N)) (trans : Option (Transition N))
      (width : N) (mo : Anchors N) (g : Geom N) (kids : ℕ) (last now : N)
      → lookup j d ≡ some s
      → Has id start d
      → Has id start (insert j (frame trans width mo g kids last now s).swarm d)
  flies-Has id j start s d trans width mo g kids last now there (t, f, has) =
      let q = (frame trans width mo g kids last now s).swarm in
      elim (Bool-cases (j == id)) [
        | inl same ↦ (
          q,
          flown
              (subst (λ x. Flown start x) (held_same id j t s d ((eq_iff j id).0 same) has there) f)
              trans width mo g kids last now,
          Dict.lookup-insert id j q d ∙ rw same refl,
        )
        | inr apart ↦ (t, f, Dict.lookup-insert id j q d ∙ rw apart has)
      ]

  Step-Has :
      {d e : Dict (Swarm N)} (id : Text) (start : Swarm N)
      → Step d e
      → length d ≤ 64
      → Has id start d
      → Has id start e
  Step-Has id start (renders d j seed) small (t, f, has) =
      (t, f, lookup-get_swarm id j seed d t small has)
  Step-Has id start (flies d j s trans width mo g kids last now there) small h =
      flies-Has id j start s d trans width mo g kids last now there h

  Uncleared-Has :
      {d e : Dict (Swarm N)} (id : Text) (start : Swarm N)
      → Uncleared d e
      → Has id start d
      → Has id start e
  Uncleared-Has id start begin h = h
  Uncleared-Has id start (more u small st) h =
      Step-Has id start st small (Uncleared-Has id start u h)

  get_swarm_there :
      (id : Text) (seed : ℕ) (d : Dict (Swarm N)) (t : Swarm N)
      → lookup id d ≡ some t
      → get_swarm id seed d ≡ (t, d)
  unfolding get_swarm
  get_swarm_there id seed d t h = rw (h, get_swarm) refl

  Uncleared-IsBounded : {d e : Dict (Swarm N)} → Uncleared d e → IsBounded d → IsBounded e
  Uncleared-IsBounded begin b = b
  Uncleared-IsBounded (more u small st) b = Step-IsBounded st (Uncleared-IsBounded u b)

  -- However often buses are rendered and flown, in whatever order, at most 65 swarms are kept, one
  -- for each bus, and each has all its particles. And from any moment on, through renders and frames
  -- in any order of which none finds more than 64 swarms: a bus that had a swarm and is rendered
  -- again, with whatever seed it asks, flies that swarm, moved by frames of its own only, and no
  -- swarm is made or lost by that. A render of a new bus that finds more than 64 swarms clears them
  -- all, and nothing is said of the buses' swarms across it but the bounds.
  pub Reach-keeps :
      {d e : Dict (Swarm N)}
      → Reach [] d
      → Uncleared d e
      → IsBounded d
        × IsBounded e
        × ((id : Text) (s : Swarm N)
            → lookup id d ≡ some s
            → (t : Swarm N) × Flown s t × ((seed : ℕ) → get_swarm id seed e ≡ (t, e)))
  Reach-keeps {d} {e} r u = (
    Reach-IsBounded r,
    Uncleared-IsBounded u (Reach-IsBounded r),
    λ id s has.
        let (t, f, there) = Uncleared-Has id s u (s, still, has) in
        (t, f, λ seed. get_swarm_there id seed e t there),
  )
