-- ===== src/Base/Dict.antt =====
-- A JavaScript `Map`, or an object used as one: entries in insertion order, keyed by strings.
use beauty_awg.Base.Tests.{if◌then◌else◌}
use beauty_awg.Base.Strings.{Text, ◌==◌, eq_iff}
use beauty_awg.Base.Sets
use mathlib.Core.Path.{◌≡◌, refl, ap}
use mathlib.Core.Bool.{false, ◌||◌}
use mathlib.Core.Option.{Option, none, some}
use mathlib.Core.List.{List, [], ◌∷◌, ◌++◌}
use native.Mathlib.Omega.{arith}

abbrev pub Dict {ℓ} : Type ℓ → Type ℓ
Dict V = List (Text × V)

abbrev pub keys {ℓ} : {V : Type ℓ} → Dict V → List Text
keys [] = []
keys ((k, v) ∷ d) = k ∷ keys d

module _ {ℓ} {V : Type ℓ} where
  -- `d.get(k)`; `none` is `undefined`.
  unfoldable pub lookup : Text → Dict V → Option V
  lookup k [] = none
  lookup k ((j, v) ∷ d) = if j == k then some v else lookup k d

  -- `d.set(k, v)`: a key that is present keeps its place.
  unfoldable pub insert : Text → V → Dict V → Dict V
  insert k v [] = (k, v) ∷ []
  insert k v ((j, w) ∷ d) = if j == k then (j, v) ∷ d else (j, w) ∷ insert k v d

  -- `d.delete(k)`
  unfoldable pub erase : Text → Dict V → Dict V
  erase k [] = []
  erase k ((j, w) ∷ d) = if j == k then d else (j, w) ∷ erase k d

  pub lookup-cons :
      (j k : Text) (v : V) (d : Dict V)
      → lookup j ((k, v) ∷ d) ≡ (if k == j then some v else lookup j d)
  unfolding lookup
  lookup-cons j k v d = refl

  pub lookup-insert :
      (j k : Text) (v : V) (d : Dict V)
      → lookup j (insert k v d) ≡ (if k == j then some v else lookup j d)
  unfolding lookup insert
  lookup-insert j k v [] = refl
  lookup-insert j k v ((i, w) ∷ d) =
      ground (arith, eq_iff k j, eq_iff i k, eq_iff i j, lookup-insert j k v d)

  pub insert_fresh :
      (k : Text) (v : V) (d : Dict V)
      → Sets.includes (keys d) k ≡ false
      → insert k v d ≡ d ++ ((k, v) ∷ [])
  unfolding insert Sets.includes
  insert_fresh k v [] h = refl
  insert_fresh k v ((j, w) ∷ d) h = ground (arith, insert_fresh k v d)

  pub keys-append : (d e : Dict V) → keys (d ++ e) ≡ keys d ++ keys e
  keys-append [] e = refl
  keys-append ((k, v) ∷ d) e = ap (λ r. k ∷ r) (keys-append d e)

  pub includes-keys-insert :
      (k j : Text) (v : V) (d : Dict V)
      → Sets.includes (keys (insert k v d)) j ≡ (k == j || Sets.includes (keys d) j)
  unfolding insert Sets.includes
  includes-keys-insert k j v [] = refl
  includes-keys-insert k j v ((i, w) ∷ d) =
      ground (arith, eq_iff i k, eq_iff k j, eq_iff i j, includes-keys-insert k j v d)

  pub insert-Nodup :
      (k : Text) (v : V) (d : Dict V) → Sets.Nodup (keys d) → Sets.Nodup (keys (insert k v d))
  unfolding insert Sets.includes
  insert-Nodup k v [] h = (refl, tt)
  insert-Nodup k v ((i, w) ∷ d) (h, hs) =
      ground (arith, insert-Nodup k v d hs, includes-keys-insert k i v d, eq_iff k i, eq_iff i k)

  pub lookup_absent : (k : Text) (d : Dict V) → Sets.includes (keys d) k ≡ false → lookup k d ≡ none
  unfolding Sets.includes lookup
  lookup_absent k [] h = refl
  lookup_absent k ((j, w) ∷ d) h = ground (arith, lookup_absent k d)

  pub includes-lookup :
      (k : Text) (d : Dict V) → lookup k d ≡ none → Sets.includes (keys d) k ≡ false
  unfolding Sets.includes lookup
  includes-lookup k [] h = refl
  includes-lookup k ((j, w) ∷ d) h = ground (arith, includes-lookup k d)

  pub lookup-erase :
      (k j : Text) (d : Dict V)
      → Sets.Nodup (keys d)
      → lookup j (erase k d) ≡ (if k == j then none else lookup j d)
  unfolding erase lookup
  lookup-erase k j [] h = ground arith
  lookup-erase k j ((i, w) ∷ d) (h, hs) = ground (
    arith,
    lookup-erase k j d hs,
    eq_iff i k,
    eq_iff i j,
    eq_iff k j,
    lookup_absent i d h,
    λ (e : i ≡ j). ap (λ t. lookup t d) e,
  )

  includes-keys-erase :
      (k j : Text) (d : Dict V)
      → Sets.includes (keys d) j ≡ false
      → Sets.includes (keys (erase k d)) j ≡ false
  unfolding erase Sets.includes
  includes-keys-erase k j [] h = refl
  includes-keys-erase k j ((i, w) ∷ d) h = ground (arith, includes-keys-erase k j d)

  pub erase-Nodup : (k : Text) (d : Dict V) → Sets.Nodup (keys d) → Sets.Nodup (keys (erase k d))
  unfolding erase Sets.includes
  erase-Nodup k [] h = tt
  erase-Nodup k ((i, w) ∷ d) (h, hs) =
      ground (arith, erase-Nodup k d hs, includes-keys-erase k i d h)

  pub lookup-append : (k : Text) (d e : Dict V) → lookup k d ≡ none → lookup k (d ++ e) ≡ lookup k e
  unfolding lookup
  lookup-append k [] e h = refl
  lookup-append k ((j, w) ∷ d) e h = ground (arith, lookup-append k d e)
