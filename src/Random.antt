-- ===== src/Random.antt =====
-- web/app/components/BusEdge.tsx: the seeded generator, and the hash that a bus is seeded with.
use Prim.Native.Nat.{bit_or, bit_xor}
use beauty_awg.Base.{ℕ, ◌+◌, ◌%◌, [], ◌∷◌, Text}
use beauty_awg.Base.Words.{word, imul, shr}

-- `mulberry32`: the seed after a call, and the 32 bits that the call gives.
unfoldable pub next_seed : ℕ → ℕ
next_seed seed = (seed + 0x6d2b79f5) % word

unfoldable pub mulberry32 : ℕ → ℕ
mulberry32 seed =
    let t = imul (bit_xor seed (shr seed 15)) (bit_or 1 seed) in
    let u = bit_xor ((t + imul (bit_xor t (shr t 7)) (bit_or 61 t)) % word) t in
    bit_xor u (shr u 14)

unfoldable pub hash_from : ℕ → Text → ℕ
hash_from h [] = h
hash_from h (c ∷ cs) = hash_from (imul (bit_xor h c) 0x01000193) cs

-- `hash`
unfoldable pub hash : Text → ℕ
unfolding hash_from
hash s = hash_from 0x811c9dc5 s
