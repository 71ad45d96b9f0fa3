-- ===== src/Bus/Swarms/Entries.antt =====
-- BusEdge.tsx: the map of swarms after an insertion, its size and the swarms in it.
use beauty_awg.Base.{◌+◌, ◌≤◌, ◌≡◌, some, [], ◌∷◌, arith, Text, length, All}
use beauty_awg.Base.Dict.{Dict, lookup, insert}
use beauty_awg.Bus.{Swarm, pool}

module _ {N : Type 0} where
  pub length-insert :
      (k : Text) (v : Swarm N) (d : Dict (Swarm N)) → length (insert k v d) ≤ length d + 1
  unfolding insert
  length-insert k v [] = omega arith
  length-insert k v ((j, w) ∷ d) = ground (arith, length-insert k v d)

  pub length-insert_there :
      (k : Text) (v w : Swarm N) (d : Dict (Swarm N))
      → lookup k d ≡ some w
      → length (insert k v d) ≡ length d
  unfolding insert lookup
  length-insert_there k v w [] h = cc
  length-insert_there k v w ((j, x) ∷ d) h = ground (arith, length-insert_there k v w d)

  pub All-insert :
      (k : Text) (v : Swarm N) (d : Dict (Swarm N))
      → length v.particles ≡ pool
      → All (λ e. length e.1.particles ≡ pool) d
      → All (λ e. length e.1.particles ≡ pool) (insert k v d)
  unfolding insert
  All-insert k v [] h a = (h, tt)
  All-insert k v ((j, w) ∷ d) h a = ground (arith, All-insert k v d h a.1)

  pub All-lookup :
      (k : Text) (v : Swarm N) (d : Dict (Swarm N))
      → All (λ e. length e.1.particles ≡ pool) d
      → lookup k d ≡ some v
      → length v.particles ≡ pool
  unfolding lookup
  All-lookup k v [] a h = cc
  All-lookup k v ((j, w) ∷ d) a h = ground (arith, All-lookup k v d a.1)
